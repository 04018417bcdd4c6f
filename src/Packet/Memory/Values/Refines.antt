-- ===== src/Packet/Memory/Values/Refines.antt =====
-- lib/server/RspPacket.cpp: the constructors of packets with buffers against those of plain values.
use embdebug.Base.{
  ℕ, ◌≤◌, ◌≡◌, refl, ap, ap₂, ◌∙◌, false, List, [], ◌∷◌, ◌++◌, Option, none, some, Bytes, arith,
  ltb, ◌==◌, ==_refl, length, take, get_elem?, set, Bool-cases, inl, inr, ◌⊎◌,
}
use embdebug.Base.Outcome.{Outcome, ok, fault, undefined}
use embdebug.Packet.Memory.{
  Packet, Memory, update, null, construct, object, read_block, create, from_builder, copy, move,
}
use embdebug.Packet.Memory.Owned.{
  owners, allocated, IsOwned, value, values, values-append, values-set, get_elem-values,
  get_elem-values_none, owners-append, owners-set, owner-le, values-update,
}
use embdebug.Packet.Memory.Values.{Call, Values, perform_value}

abbrev pub view : Memory → Values
view m = values m.contents m.objects

-- Both end alike: the objects are owned and show the values, or both are undefined.
abbrev pub Refines : Outcome Memory → Outcome Values → Type 0
Refines (ok m) (ok l) = IsOwned m × (view m ≡ l)
Refines (fault x) (fault y) = x ≡ y
Refines _ _ = ⊥

take_all : (s : Bytes) → take (length s) s ≡ s
take_all [] = refl
take_all (b ∷ s) = ap (λ s. b ∷ s) (take_all s)

owners-construct :
    (m : Memory) (text : Bytes) (len a : ℕ)
    → IsOwned m
    → owners a (construct text len m).objects ≡ allocated ((construct text len m).contents a)
owners-construct m text len a v =
    let more = owners-append a m.objects (record { block = some m.next; len = len } ∷ []) in
    elim (Bool-cases (a == m.next)) [
      | inl e ↦
          let same : a ≡ m.next = ground arith in
          let unowned = v.one a ∙ ap allocated (v.fresh a (omega arith)) in
          more ∙ rw e (omega arith)
      | inr e ↦ more ∙ rw e (omega (arith, v.one a))
    ]

fresh-construct :
    (m : Memory) (text : Bytes) (len a : ℕ)
    → IsOwned m
    → (construct text len m).next ≤ a
    → (construct text len m).contents a ≡ none
fresh-construct m text len a v above =
    let other : (a == m.next) ≡ false = ground arith in rw other (v.fresh a (omega arith))

construct-Refines :
    (m : Memory) (text : Bytes) (len : ℕ)
    → IsOwned m
    → Refines (ok (construct text len m)) (ok (view m ++ (some (take len text) ∷ [])))
construct-Refines m text len v =
    let p : Packet = record { block = some m.next; len = len } in
    let unowned : owners m.next m.objects ≡ 0 =
      v.one m.next ∙ ap allocated (v.fresh m.next (omega arith)) in
    let shows : value (update m.contents m.next (some text)) p ≡ some (take len text) =
      rw (==_refl m.next) refl in
    (
      record {
        one = λ a. owners-construct m text len a v;
        fresh = λ a above. fresh-construct m text len a v above;
      },
      values-append (update m.contents m.next (some text)) m.objects (p ∷ [])
          ∙ ap₂ (λ l v. l ++ (v ∷ []))
              (values-update m.contents m.next (some text) m.objects unowned) shows,
    )

pub create-Refines :
    (size : ℕ) (text : Bytes) (m : Memory)
    → IsOwned m
    → Refines (create size text m) (perform_value size (Call.create_from text) (view m))
unfolding create
create-Refines size text m v = elim (Bool-cases (ltb size (length text))) [
  | inl e ↦ rw e refl
  | inr e ↦
      let (owned, shows) = construct-Refines m text (length text) v in
      rw e (owned, shows ∙ ap (λ s. view m ++ (some s ∷ [])) (take_all text))
]

pub from_builder-Refines :
    (size : ℕ) (text : Bytes) (m : Memory)
    → IsOwned m
    → Refines (from_builder text m) (perform_value size (Call.build_from text) (view m))
unfolding from_builder
from_builder-Refines size text m v =
    let (owned, shows) = construct-Refines m text (length text) v in
    (owned, shows ∙ ap (λ s. view m ++ (some s ∷ [])) (take_all text))

pub Option-cases : {A : Type 0} (o : Option A) → (o ≡ none) ⊎ ((a : A) × (o ≡ some a))
Option-cases none = inl refl
Option-cases (some a) = inr (a, refl)

-- An object that is there is there as a value, and the other way round.
pub object_there :
    {A : Type 0} (i : ℕ) (l : List A) (a : A) → get_elem? l i ≡ some a → object i l ≡ ok a
object_there i l a e = rw (e, object) refl

pub object_missing :
    {A : Type 0} (i : ℕ) (l : List A) → get_elem? l i ≡ none → object i l ≡ fault undefined
object_missing i l e = rw (e, object) refl

module _ (m : Memory) (i : ℕ) where
  pub value_there :
      (p : Packet) → get_elem? m.objects i ≡ some p → object i (view m) ≡ ok (value m.contents p)
  value_there p e = object_there i (view m) _ (get_elem-values m.contents m.objects i p e)

  pub value_missing : get_elem? m.objects i ≡ none → object i (view m) ≡ fault undefined
  value_missing e = object_missing i (view m) (get_elem-values_none m.contents m.objects i e)

-- A block that is pointed to is allocated.
pub owned_block :
    (m : Memory) (i a len : ℕ)
    → IsOwned m
    → get_elem? m.objects i ≡ some (record { block = some a; len = len })
    → (text : Bytes) × (m.contents a ≡ some text)
owned_block m i a len v e = elim (Option-cases (m.contents a)) [
  | inl none_there ↦
      let least = owner-le a m.objects i (record { block = some a; len = len }) e in
      let all = v.one a ∙ ap allocated none_there in
      let self = ==_refl a in absurd (ground (arith, least, all, self))
  | inr found ↦ found
]

pub Refines-eq :
    {x x' : Outcome Memory} {y y' : Outcome Values} → x ≡ x' → y ≡ y' → Refines x' y' → Refines x y
Refines-eq e f h = rw (e, f) h

-- Both are undefined.
pub undefined-Refines :
    {x : Outcome Memory} {y : Outcome Values}
    → x ≡ fault undefined
    → y ≡ fault undefined
    → Refines x y
undefined-Refines e f = Refines-eq e f refl

pub copy-Refines :
    (size i : ℕ) (m : Memory)
    → IsOwned m
    → Refines (copy i m) (perform_value size (Call.copy_of i) (view m))
unfolding copy
copy-Refines size i m v = elim (Option-cases (get_elem? m.objects i)) [
  | inl e ↦
      undefined-Refines (rw (object_missing i m.objects e) refl) (rw (value_missing m i e) refl)
  | inr (p, e) ↦ by_block p.block p.len e
]
  where
    by_block :
        (block : Option ℕ) (len : ℕ)
        → get_elem? m.objects i ≡ some (record { block = block; len = len })
        → Refines (copy i m) (perform_value size (Call.copy_of i) (view m))
    by_block none len e =
        undefined-Refines (rw (object_there i m.objects _ e) refl) (rw (value_there m i _ e) refl)
    by_block (some a) len e =
        let (text, found) = owned_block m i a len v e in
        Refines-eq {x' = ok (construct text len m)}
          {y' = ok (view m ++ (some (take len text) ∷ []))}
          (rw (object_there i m.objects _ e) (rw (found, read_block) refl))
          (rw (value_there m i _ e) (rw found refl)) (construct-Refines m text len v)

module _ (m : Memory) (i : ℕ) (p : Packet) (e : get_elem? m.objects i ≡ some p) where
  owners-move : (a : ℕ) → owners a (set m.objects i null ++ (p ∷ [])) ≡ owners a m.objects
  owners-move a =
      omega
        (arith, owners-append a (set m.objects i null) (p ∷ []), owners-set a m.objects i p null e)

  values-move :
      values m.contents (set m.objects i null ++ (p ∷ []))
      ≡ set (view m) i none ++ (value m.contents p ∷ [])
  values-move =
      values-append m.contents (set m.objects i null) (p ∷ [])
      ∙ ap (λ l. l ++ (value m.contents p ∷ [])) (values-set m.contents m.objects i null)

pub move-Refines :
    (size i : ℕ) (m : Memory)
    → IsOwned m
    → Refines (move i m) (perform_value size (Call.move_of i) (view m))
unfolding move
move-Refines size i m v = elim (Option-cases (get_elem? m.objects i)) [
  | inl e ↦
      undefined-Refines (rw (object_missing i m.objects e) refl) (rw (value_missing m i e) refl)
  | inr (p, e) ↦
      Refines-eq {x' = ok (record m { objects = set m.objects i null ++ (p ∷ []) })}
        {y' = ok (set (view m) i none ++ (value m.contents p ∷ []))}
        (rw (object_there i m.objects p e) refl) (rw (value_there m i p e) refl)
        (
          record { one = λ a. owners-move m i p e a ∙ v.one a; fresh = v.fresh },
          values-move m i p e,
        )
]
