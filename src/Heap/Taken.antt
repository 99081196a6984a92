-- ===== src/Heap/Taken.antt =====
-- The block that `heap_alloc_first_fit` of src/mem_lab.cc takes, and what it splits off.
use mathlib.Core.Path.{subst}
use micro_kernel_using_c_plu.Prelude.{
  ℕ, ◌+◌, ◌-◌, ◌%◌, ◌^◌, ◌≤◌, ◌<◌, ◌≡◌, ◌≢◌, ◌⊎◌, inl, inr, false, true, List, [], ◌∷◌, arith, ◌==◌,
  leb, if◌then◌else◌, Bool-cases, sym, ap, ◌∙◌,
}
use micro_kernel_using_c_plu.Prelude.Store.{Ptr, has, update}
use micro_kernel_using_c_plu.Heap.{Heap, heap_magic, header_bytes, is_free, set_used, take_block}
use micro_kernel_using_c_plu.Heap.Tiles.{Tiles, Tiles-frame, Tiles-le, align_up-multiple}

-- The headers after the block `b` is taken, where no sum needs rounding.
abbrev pub taken : Ptr → ℕ → Heap → Heap
taken b want h =
    let behind = b + header_bytes + want in
    if leb (behind + header_bytes + 16) (b + header_bytes + (h b).size)
    then update
        (update h behind
          (record { magic = heap_magic; flags = 1; size = (h b).size - want - header_bytes }))
        b (set_used (record (h b) { size = want }))
    else update h b (set_used (h b))

pub take_block-taken :
    (h : Heap) (b want a : ℕ)
    → b % 16 ≡ 0
    → (h b).size % 16 ≡ 0
    → want % 16 ≡ 0
    → want ≤ (h b).size
    → b + header_bytes + (h b).size + 16 ≤ 2 ^ 64
    → take_block b want h a ≡ taken b want h a
unfolding take_block
take_block-taken h b want a mb ms mw le fits =
    let e1 = align_up-multiple (b + header_bytes + (h b).size) (omega arith) fits in
    let e2 = align_up-multiple (b + header_bytes + want) (omega arith) (omega arith) in
    rw (e1, e2) (ground arith)

-- `b` is in use with room for `want` bytes, cut to that size, with a free block behind it, if there
-- is room for a header and 16 bytes more, and else left at its size; and the headers still lie side by side between the
-- same ends; the other blocks stay.
pub record IsTaken (h h' : Heap) (p last b want : ℕ) (xs ys : List Ptr) : Type 0 where
  pub tiles : Tiles h' p ys last
  pub member : has b ys ≡ true
  pub used : is_free (h' b) ≡ false
  pub room : want ≤ (h' b).size
  pub cut :
      ((want + header_bytes + 16 ≤ (h b).size)
        × ((h' b).size ≡ want)
        × (has (b + header_bytes + want) ys ≡ true)
        × (is_free (h' (b + header_bytes + want)) ≡ true)
        × ((h' (b + header_bytes + want)).size ≡ (h b).size - want - header_bytes))
      ⊎ (((h b).size < want + header_bytes + 16) × ((h' b).size ≡ (h b).size))
  pub others : (a : Ptr) → has a xs ≡ true → a ≢ b → (has a ys ≡ true) × (h' a ≡ h a)

head-IsTaken :
    (h : Heap) (p : ℕ) (x : Ptr) (xs : List Ptr) (last want : ℕ)
    → Tiles h p (x ∷ xs) last
    → want % 16 ≡ 0
    → want ≤ (h x).size
    → (ys : List Ptr) × IsTaken h (taken x want h) p last x want (x ∷ xs) ys
head-IsTaken h p x xs last want t mw le =
    let after = x + header_bytes + (h x).size in
    let behind = x + header_bytes + want in
    let k = taken x want h in
    let rest : Tiles k after xs last = Tiles-frame h k after xs last t.3 (λ a lo. ground arith) in
    let above = λ (a : Ptr) (j : has a xs ≡ true). (Tiles-le h after xs last a t.3 j).0 in
    elim (Bool-cases (leb (behind + header_bytes + 16) after)) [
      | inl split ↦ (
        x ∷ behind ∷ xs,
        record {
          tiles = ground (arith, rest);
          member = ground arith;
          used = ground arith;
          room = ground arith;
          cut = inl (ground arith, ground arith, ground arith, ground arith, ground arith);
          others = λ a j ne. ground (arith, above a);
        },
      )
      | inr whole ↦ (
        x ∷ xs,
        record {
          tiles = ground (arith, rest);
          member = ground arith;
          used = ground arith;
          room = ground arith;
          cut = inr (ground arith, ground arith);
          others = λ a j ne. ground (arith, above a);
        },
      )
    ]

pub taken-IsTaken :
    (h : Heap) (p : ℕ) (xs : List Ptr) (last b want : ℕ)
    → Tiles h p xs last
    → has b xs ≡ true
    → want % 16 ≡ 0
    → want ≤ (h b).size
    → (ys : List Ptr) × IsTaken h (taken b want h) p last b want xs ys
taken-IsTaken h p [] last b want t i mw le = absurd (ground arith)
taken-IsTaken h p (x ∷ xs) last b want t i mw le = elim (Bool-cases (b == x)) [
  | inl here ↦
      let e : b ≡ x = ground arith in
      subst (λ z. (ys : List Ptr) × IsTaken h (taken z want h) p last z want (x ∷ xs) ys) (sym e)
        (head-IsTaken h p x xs last want t mw (subst (λ z. want ≤ (h z).size) e le))
  | inr n ↦
      let low = Tiles-le h (x + header_bytes + (h x).size) xs last b t.3 (ground arith) in
      let (ys, r) =
        taken-IsTaken h (x + header_bytes + (h x).size) xs last b want t.3 (ground arith) mw le in
      let same : taken b want h x ≡ h x = ground (arith, low) in
      (
        x ∷ ys,
        record {
          tiles = ground (arith, r.tiles, same);
          member = ground (arith, r.member);
          used = r.used;
          room = r.room;
          cut = ground (arith, r.cut);
          others = λ a j ne. ground (arith, r.others a, same);
        },
      )
]

-- Two heaps with the same headers.
pub IsTaken-same :
    (h h' g : Heap) (p last b want : ℕ) (xs ys : List Ptr)
    → IsTaken h h' p last b want xs ys
    → ((a : Ptr) → g a ≡ h' a)
    → IsTaken h g p last b want xs ys
IsTaken-same h h' g p last b want xs ys r same = record {
  tiles = Tiles-frame h' g p ys last r.tiles (λ a lo. same a);
  member = r.member;
  used = ap is_free (same b) ∙ r.used;
  room = ground (arith, same b, r.room);
  cut = ground (arith, same b, same (b + header_bytes + want), r.cut);
  others = λ a j ne. let o = r.others a j ne in (o.0, same a ∙ o.1);
}
