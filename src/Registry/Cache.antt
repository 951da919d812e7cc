-- ===== src/Registry/Cache.antt =====
-- backend/internal/adapter/cache/dongles.go: the cache in front of a repository of dongles. What the
-- repository answers is an argument of each call; the mutex makes the parts of a call atomic.
pub mod Fresh
use tccelta.Common.{
  ℕ, ◌+◌, Bool, List, [], ◌∷◌, Option, none, some, Result, ok, err, ltb, leb, ◌==◌, if◌then◌else◌,
  length,
}
use tccelta.Common.Bytes.{Bytes}
use tccelta.Common.Maps.{bytes_key, lookup, put, remove}
use tccelta.Registry.{Dongle, Error}

pub record Input : Type 0 where
  pub d : Dongle
  pub until : ℕ

pub record Dongles : Type 0 where
  pub ttl : ℕ
  pub max : ℕ
  pub m : List (Bytes × Input)

-- NewDongles
unfoldable pub new_dongles : ℕ → ℕ → Dongles
new_dongles max ttl = record {
  ttl = if ttl == 0 then 60000000000 else ttl;
  max = if max == 0 then 10000 else max;
  m = [];
}

abbrev pub current : ℕ → Option Input → Option Dongle
current now none = none
current now (some e) = if ltb now e.until then some e.d else none

-- The part of FindByDevID behind an answer of the repository: a full cache is emptied first.
unfoldable pub remember : Dongles → ℕ → Bytes → Dongle → Dongles
remember c now dev d =
    let room = if leb c.max (length c.m) then [] else c.m in
    record c { m = put room dev (record { d = d; until = now + c.ttl }) }

-- FindByDevID
unfoldable pub find : Dongles → ℕ → Bytes → Result Error Dongle → Result Error Dongle × Dongles
find c now dev answer = elim (current now (lookup c.m dev)) [
  | some d ↦ (ok d, c)
  | none ↦ elim answer [ err e ↦ (err e, c) | ok d ↦ (ok d, remember c now dev d) ]
]

-- Invalidate
unfoldable pub invalidate : Dongles → Bytes → Dongles
invalidate c dev = record c { m = remove c.m dev }
