-- ===== src/Packet/Memory/Owned.antt =====
-- lib/server/RspPacket.cpp: who owns a buffer, and what an object shows of it.
use embdebug.Base.{
  ℕ, zero, suc, ◌+◌, ◌≤◌, ◌≡◌, refl, ap, ap₂, List, [], ◌∷◌, ◌++◌, Option, none, some, Bytes, arith,
  ◌==◌, if◌then◌else◌, take, get_elem?, set,
}
use embdebug.Packet.Memory.{Packet, Memory, update}

-- How often a block is pointed to.
abbrev pub owner : ℕ → Packet → ℕ
owner a p = elim p.block [ none ↦ 0 | some b ↦ if a == b then 1 else 0 ]

abbrev pub owners : ℕ → List Packet → ℕ
owners a [] = 0
owners a (p ∷ objects) = owner a p + owners a objects

abbrev pub allocated : Option Bytes → ℕ
allocated none = 0
allocated (some text) = 1

-- Each block that is allocated has one owner, and no other block has one.
pub record IsOwned (m : Memory) : Type 0 where
  pub one : (a : ℕ) → owners a m.objects ≡ allocated (m.contents a)
  pub fresh : (a : ℕ) → m.next ≤ a → m.contents a ≡ none

-- The characters of an object, none where its pointer is null.
abbrev pub shown : ℕ → Option Bytes → Option Bytes
shown len none = none
shown len (some text) = some (take len text)

abbrev pub value : (ℕ → Option Bytes) → Packet → Option Bytes
value h p = elim p.block [ none ↦ none | some a ↦ shown p.len (h a) ]

abbrev pub values : (ℕ → Option Bytes) → List Packet → List (Option Bytes)
values h [] = []
values h (p ∷ objects) = value h p ∷ values h objects

pub values-append :
    (h : ℕ → Option Bytes) (ps qs : List Packet) → values h (ps ++ qs) ≡ values h ps ++ values h qs
values-append h [] qs = refl
values-append h (p ∷ ps) qs = ap (λ l. value h p ∷ l) (values-append h ps qs)

pub values-set :
    (h : ℕ → Option Bytes) (ps : List Packet) (i : ℕ) (q : Packet)
    → values h (set ps i q) ≡ set (values h ps) i (value h q)
values-set h [] i q = refl
values-set h (p ∷ ps) zero q = refl
values-set h (p ∷ ps) (suc i) q = ap (λ l. value h p ∷ l) (values-set h ps i q)

pub get_elem-values :
    (h : ℕ → Option Bytes) (ps : List Packet) (i : ℕ) (p : Packet)
    → get_elem? ps i ≡ some p
    → get_elem? (values h ps) i ≡ some (value h p)
get_elem-values h [] i p e = cc
get_elem-values h (q ∷ ps) zero p e = let same : q ≡ p = cc in ap (λ q. some (value h q)) same
get_elem-values h (q ∷ ps) (suc i) p e = get_elem-values h ps i p e

pub get_elem-values_none :
    (h : ℕ → Option Bytes) (ps : List Packet) (i : ℕ)
    → get_elem? ps i ≡ none
    → get_elem? (values h ps) i ≡ none
get_elem-values_none h [] i e = refl
get_elem-values_none h (q ∷ ps) zero e = cc
get_elem-values_none h (q ∷ ps) (suc i) e = get_elem-values_none h ps i e

pub owners-append : (a : ℕ) (ps qs : List Packet) → owners a (ps ++ qs) ≡ owners a ps + owners a qs
owners-append a [] qs = omega arith
owners-append a (p ∷ ps) qs = omega (arith, owners-append a ps qs)

pub owners-set :
    (a : ℕ) (ps : List Packet) (i : ℕ) (p q : Packet)
    → get_elem? ps i ≡ some p
    → owners a (set ps i q) + owner a p ≡ owners a ps + owner a q
owners-set a [] i p q e = cc
owners-set a (x ∷ ps) zero p q e = let same : x ≡ p = cc in omega (arith, ap (owner a) same)
owners-set a (x ∷ ps) (suc i) p q e = omega (arith, owners-set a ps i p q e)

pub owner-le :
    (a : ℕ) (ps : List Packet) (i : ℕ) (p : Packet)
    → get_elem? ps i ≡ some p
    → owner a p ≤ owners a ps
owner-le a [] i p e = cc
owner-le a (x ∷ ps) zero p e = let same : x ≡ p = cc in omega (arith, ap (owner a) same)
owner-le a (x ∷ ps) (suc i) p e = omega (arith, owner-le a ps i p e)

-- A change of a block shows nowhere but at its owners.
pub value-update :
    (h : ℕ → Option Bytes) (a : ℕ) (c : Option Bytes) (p : Packet)
    → owner a p ≡ 0
    → value (update h a c) p ≡ value h p
value-update h a c p e = by_block p.block p.len e
  where
    by_block :
        (block : Option ℕ) (len : ℕ)
        → owner a (record { block = block; len = len }) ≡ 0
        → value (update h a c) (record { block = block; len = len })
          ≡ value h (record { block = block; len = len })
    by_block none len e = refl
    by_block (some b) len e = ground arith

pub values-update :
    (h : ℕ → Option Bytes) (a : ℕ) (c : Option Bytes) (ps : List Packet)
    → owners a ps ≡ 0
    → values (update h a c) ps ≡ values h ps
values-update h a c [] e = refl
values-update h a c (p ∷ ps) e =
    ap₂ (λ v l. v ∷ l) (value-update h a c p (omega arith)) (values-update h a c ps (omega arith))

-- An owner that is overwritten hides the change.
pub values-update-set :
    (h : ℕ → Option Bytes) (a : ℕ) (c x : Option Bytes) (ps : List Packet) (i : ℕ) (p : Packet)
    → get_elem? ps i ≡ some p
    → owner a p ≡ 1
    → owners a ps ≡ 1
    → set (values (update h a c) ps) i x ≡ set (values h ps) i x
values-update-set h a c x [] i p e o all = cc
values-update-set h a c x (q ∷ ps) zero p e o all =
    let same : q ≡ p = cc in
    ap (λ l. x ∷ l) (values-update h a c ps (omega (arith, ap (owner a) same)))
values-update-set h a c x (q ∷ ps) (suc i) p e o all =
    let rest = owner-le a ps i p e in
    ap₂ (λ v l. v ∷ l) (value-update h a c q (omega arith))
      (values-update-set h a c x ps i p e o (omega arith))
