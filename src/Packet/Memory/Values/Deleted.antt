-- ===== src/Packet/Memory/Values/Deleted.antt =====
-- lib/server/RspPacket.cpp, `operator=` and the destructor of packets with buffers, against those
-- of plain values.
use embdebug.Base.{
  ℕ, zero, suc, ◌+◌, ◌≤◌, ◌≡◌, refl, sym, ap, ◌∙◌, false, List, [], ◌∷◌, Option, none, some, Bytes,
  arith, ◌==◌, ==_refl, get_elem?, set, Bool-cases, inl, inr,
}
use embdebug.Base.Outcome.{ok}
use embdebug.Packet.Memory.{Packet, Memory, update, null, delete, assign, destroy}
use embdebug.Packet.Memory.Owned.{
  owner, owners, allocated, IsOwned, value, values, values-set, owners-set, owner-le, value-update,
  values-update-set,
}
use embdebug.Packet.Memory.Values.{Call, perform_value}
use embdebug.Packet.Memory.Values.Refines.{
  view, Refines, Refines-eq, undefined-Refines, Option-cases, object_there, object_missing,
  value_there, value_missing, owned_block,
}

get_elem-set :
    {A : Type 0} (l : List A) (i j : ℕ) (a b : A)
    → get_elem? l i ≡ some a
    → get_elem? l j ≡ some b
    → get_elem? (set l i b) j ≡ some b
get_elem-set [] i j a b e f = cc
get_elem-set (x ∷ l) zero zero a b e f = refl
get_elem-set (x ∷ l) zero (suc j) a b e f = f
get_elem-set (x ∷ l) (suc i) zero a b e f = f
get_elem-set (x ∷ l) (suc i) (suc j) a b e f = get_elem-set l i j a b e f

get_elem-set_other :
    {A : Type 0} (l : List A) (i j : ℕ) (a b : A)
    → (i == j) ≡ false
    → get_elem? l j ≡ some b
    → get_elem? (set l i a) j ≡ some b
get_elem-set_other [] i j a b e f = f
get_elem-set_other (x ∷ l) zero zero a b e f = cc
get_elem-set_other (x ∷ l) zero (suc j) a b e f = f
get_elem-set_other (x ∷ l) (suc i) zero a b e f = f
get_elem-set_other (x ∷ l) (suc i) (suc j) a b e f = get_elem-set_other l i j a b (ground arith) f

set-set : {A : Type 0} (l : List A) (i : ℕ) (a b : A) → set (set l i a) i b ≡ set l i b
set-set [] i a b = refl
set-set (x ∷ l) zero a b = refl
set-set (x ∷ l) (suc i) a b = ap (λ l. x ∷ l) (set-set l i a b)

-- What `delete` leaves.
abbrev freed : Option ℕ → (ℕ → Option Bytes) → ℕ → Option Bytes
freed none h = h
freed (some a) h = update h a none

-- The object at a place, whose buffer is deleted.
module _ (m : Memory) (v : IsOwned m) (i : ℕ) where
  delete_lem :
      (block : Option ℕ) (len : ℕ)
      → get_elem? m.objects i ≡ some (record { block = block; len = len })
      → delete block m ≡ ok (record m { contents = freed block m.contents })
  delete_lem none len e = refl
  delete_lem (some a) len e =
      let (text, found) = owned_block m i a len v e in rw (found, delete) refl

  freed-allocated :
      (block : Option ℕ) (len a : ℕ)
      → get_elem? m.objects i ≡ some (record { block = block; len = len })
      → allocated (freed block m.contents a) + owner a (record { block = block; len = len })
        ≡ allocated (m.contents a)
  freed-allocated none len a e = omega arith
  freed-allocated (some b) len a e =
      let (text, found) = owned_block m i b len v e in
      elim (Bool-cases (a == b)) [
        | inl same ↦ let eq : a ≡ b = ground arith in rw (eq, ==_refl b, found) refl
        | inr other ↦ rw other (omega arith)
      ]

  freed-fresh : (block : Option ℕ) (a : ℕ) → m.contents a ≡ none → freed block m.contents a ≡ none
  freed-fresh none a h = h
  freed-fresh (some b) a h = ground arith

  freed-values :
      (block : Option ℕ) (len : ℕ) (x : Option Bytes)
      → get_elem? m.objects i ≡ some (record { block = block; len = len })
      → set (values (freed block m.contents) m.objects) i x ≡ set (view m) i x
  freed-values none len x e = refl
  freed-values (some b) len x e =
      let (text, found) = owned_block m i b len v e in
      values-update-set m.contents b none x m.objects i _ e (rw (==_refl b) refl)
        (v.one b ∙ ap allocated found)

  freed-value :
      (block : Option ℕ) (len j : ℕ) (q : Packet)
      → get_elem? m.objects i ≡ some (record { block = block; len = len })
      → (i == j) ≡ false
      → get_elem? m.objects j ≡ some q
      → value (freed block m.contents) q ≡ value m.contents q
  freed-value none len j q e apart f = refl
  freed-value (some b) len j q e apart f =
      let (text, found) = owned_block m i b len v e in
      let p : Packet = record { block = some b; len = len } in
      let self : owner b p ≡ 1 = rw (==_refl b) refl in
      let kept = get_elem-set_other m.objects i j null q apart f in
      value-update m.contents b none q (
        omega (
          arith,
          owners-set b m.objects i p null e,
          owner-le b (set m.objects i null) j q kept,
          v.one b ∙ ap allocated found,
          self,
        ))

module _ (m : Memory) (v : IsOwned m) (i : ℕ) (p : Packet)
    (e : get_elem? m.objects i ≡ some p) where
  abbrev without : List Packet → Memory
  without objects = record m { contents = freed p.block m.contents; objects = objects }

  without-fresh : (a : ℕ) → m.next ≤ a → freed p.block m.contents a ≡ none
  without-fresh a above = freed-fresh m v i p.block a (v.fresh a above)

  abbrev dead : Packet
  dead = record { block = none; len = p.len }

  destroyed_lem :
      IsOwned (without (set m.objects i dead))
      × (view (without (set m.objects i dead)) ≡ set (view m) i none)
  destroyed_lem = (
    record {
      one = λ a. omega (
        arith,
        owners-set a m.objects i p dead e,
        freed-allocated m v i p.block p.len a e,
        v.one a,
      );
      fresh = without-fresh;
    },
    values-set (freed p.block m.contents) m.objects i dead
        ∙ freed-values m v i p.block p.len none e,
  )

  module _ (j : ℕ) (q : Packet) (f : get_elem? m.objects j ≡ some q) where
    abbrev moved : List Packet
    moved = set (set m.objects i q) j null

    owners-moved : (a : ℕ) → owners a moved ≡ allocated (freed p.block m.contents a)
    owners-moved a = omega (
      arith,
      owners-set a m.objects i p q e,
      owners-set a (set m.objects i q) j q null (get_elem-set m.objects i j p q e f),
      freed-allocated m v i p.block p.len a e,
      v.one a,
    )

    -- The value that is moved is the one before the deletion, or it is hidden.
    moved_value :
        set (set (view m) i (value (freed p.block m.contents) q)) j none
        ≡ set (set (view m) i (value m.contents q)) j none
    moved_value = elim (Bool-cases (i == j)) [
      | inl same ↦
          let eq : j ≡ i = ground arith in
          rw eq (set-set (view m) i _ none ∙ sym (set-set (view m) i _ none))
      | inr apart ↦
          ap (λ x. set (set (view m) i x) j none) (freed-value m v i p.block p.len j q e apart f)
    ]

    assigned_lem :
        IsOwned (without moved)
        × (view (without moved) ≡ set (set (view m) i (value m.contents q)) j none)
    assigned_lem =
        let h = freed p.block m.contents in
        (
          record { one = owners-moved; fresh = without-fresh },
          values-set h (set m.objects i q) j null
              ∙ ap (λ l. set l j none)
                  (values-set h m.objects i q ∙ freed-values m v i p.block p.len (value h q) e)
              ∙ moved_value,
        )

pub destroy-Refines :
    (size i : ℕ) (m : Memory)
    → IsOwned m
    → Refines (destroy i m) (perform_value size (Call.destroy_of i) (view m))
unfolding destroy
destroy-Refines size i m v = elim (Option-cases (get_elem? m.objects i)) [
  | inl e ↦
      undefined-Refines (rw (object_missing i m.objects e) refl) (rw (value_missing m i e) refl)
  | inr (p, e) ↦
      Refines-eq {x' = ok (without m v i p e (set m.objects i (dead m v i p e)))}
        {y' = ok (set (view m) i none)}
        (rw (object_there i m.objects p e) (rw (delete_lem m v i p.block p.len e) refl))
        (rw (value_there m i p e) refl) (destroyed_lem m v i p e)
]

pub assign-Refines :
    (size i j : ℕ) (m : Memory)
    → IsOwned m
    → Refines (assign i j m) (perform_value size (Call.move_to i j) (view m))
unfolding assign
assign-Refines size i j m v = elim (Option-cases (get_elem? m.objects i)) [
  | inl e ↦
      undefined-Refines (rw (object_missing i m.objects e) refl) (rw (value_missing m i e) refl)
  | inr (p, e) ↦ elim (Option-cases (get_elem? m.objects j)) [
    | inl f ↦
        undefined-Refines (rw (object_there i m.objects p e, object_missing j m.objects f) refl)
          (rw (value_there m i p e, value_missing m j f) refl)
    | inr (q, f) ↦
        Refines-eq {x' = ok (without m v i p e (moved m v i p e j q f))}
          {y' = ok (set (set (view m) i (value m.contents q)) j none)}
          (rw (object_there i m.objects p e, object_there j m.objects q f)
            (rw (delete_lem m v i p.block p.len e) refl))
          (rw (value_there m i p e, value_there m j q f) refl) (assigned_lem m v i p e j q f)
  ]
]
