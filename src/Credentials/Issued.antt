-- ===== src/Credentials/Issued.antt =====
-- What a token and a block tell of the credentials.
use tccelta.Common.{
  ◌≡◌, sym, ap, ◌∙◌, true, false, ok, ltb, Result-cases, Bool-cases, inl, inr, arith,
}
use tccelta.Credentials.Token.{
  Given, Token, Blocker, Ports, is_valid, pair_of, grant, verify, admit, issue_token,
}

module _ {S : Type 0} (t : Blocker S) (p : Ports) where
  -- How a token comes about.
  pub record Earned (s after : S) (c : Given) (out : Token) : Type 0 where
    pub form : is_valid c ≡ true
    pub unblocked : (t.check s (pair_of c) c.ip).0 ≡ 0
    pub verified : p.verify_client c.client_id c.secret ≡ ok true
    pub issued : p.issue c.client_id ≡ ok out.access_token
    pub forgotten : after ≡ t.reset (t.check s (pair_of c) c.ip).1 (pair_of c)

  -- A token is issued only for well-formed credentials that are not blocked and whose secret the KMS has
  -- confirmed; it is the one that was issued for this client_id, and the counter of the pair is reset.
  pub issue_token-Earned :
      (s after : S) (c : Given) (out : Token)
      → issue_token t p s c ≡ (ok out, after)
      → Earned s after c out
  unfolding issue_token admit verify grant
  issue_token-Earned s after c out h = elim (Bool-cases (ltb 0 (t.check s (pair_of c) c.ip).0)) [
    | inl e ↦ ground (arith, ap (λ z. z.0) (rw (e, issue_token, admit) at h))
    | inr e ↦
        let h1 = rw (e, issue_token, admit) at h in
        elim (Bool-cases (is_valid c)) [
          | inr f ↦ ground (arith, ap (λ z. z.0) (rw (f, admit) at h1))
          | inl f ↦
              let h2 = rw (f, admit, verify) at h1 in
              elim (Result-cases (p.verify_client c.client_id c.secret)) [
                | inr (z, g) ↦ ground (arith, ap (λ z. z.0) (rw (g, verify) at h2))
                | inl (false, g) ↦ ground (arith, ap (λ z. z.0) (rw (g, verify) at h2))
                | inl (true, g) ↦
                    let h3 = rw (g, verify, grant) at h2 in
                    elim (Result-cases (p.issue c.client_id)) [
                      | inr (z, k) ↦ ground (arith, ap (λ z. z.0) (rw (k, grant) at h3))
                      | inl (text, k) ↦
                          let h4 = rw (k, grant) at h3 in
                          record {
                            form = f;
                            unblocked = ground (arith, e);
                            verified = g;
                            issued = k ∙ ground (arith, ap (λ z. z.0) h4);
                            forgotten = sym (ap (λ z. z.1) h4);
                          }
                    ]
              ]
        ]
  ]
