-- ===== src/Heap/Coalesce.antt =====
-- `heap_coalesce` and `heap_free` of src/mem_lab.cc on the list of the blocks.
use micro_kernel_using_c_plu.Prelude.{
  ℕ, zero, suc, ◌+◌, ◌-◌, ◌%◌, ◌^◌, ◌≤◌, ◌<◌, ◌≡◌, ◌≢◌, refl, false, true, ◌&&◌, List, [], ◌∷◌,
  some, arith, ◌==◌, leb, ltb, ◌||◌, Bool-cases, ==-false, if◌then◌else◌, ◌∙◌, inl, inr,
}
use micro_kernel_using_c_plu.Prelude.Store.{Ptr, null, has, length, update}
use micro_kernel_using_c_plu.Heap.{
  Heap, heap_magic, header_bytes, is_free, set_free, heap_next, merge, coalesce_loop, heap_coalesce,
  heap_free,
}
use micro_kernel_using_c_plu.Heap.Tiles.{Tiles, Tiles-frame, Tiles-le, Tiles-magic, heap_next-tile}

-- No two blocks side by side are free.
abbrev pub Apart : Heap → List Ptr → Type 0
Apart h [] = Unit {0}
Apart h (x ∷ []) = Unit {0}
Apart h (x ∷ y ∷ ys) = ((is_free (h x) && is_free (h y)) ≡ false) × Apart h (y ∷ ys)

-- The blocks `x`, … after merging: `x` is still the first, each free block lies in a free block,
-- blocks in use are there as before, and no header in front of `x` changes.
pub record IsMerged (h h' : Heap) (last x : ℕ) (xs ys : List Ptr) : Type 0 where
  pub tiles : Tiles h' x (x ∷ ys) last
  pub apart : Apart h' (x ∷ ys)
  pub free : is_free (h' x) ≡ is_free (h x)
  pub covered :
      (a : Ptr)
      → has a (x ∷ xs) ≡ true
      → is_free (h a) ≡ true
      → (c : Ptr) × (has c (x ∷ ys) ≡ true)
        × (is_free (h' c) ≡ true)
        × (c ≤ a)
        × (a + (h a).size ≤ c + (h' c).size)
  pub kept :
      (a : Ptr)
      → has a (x ∷ xs) ≡ true
      → is_free (h a) ≡ false
      → (has a (x ∷ ys) ≡ true) × (h' a ≡ h a)
  pub front : (a : Ptr) → a < x → h' a ≡ h a

-- One step of the loop where another block stands behind `x`.
coalesce_loop-step :
    (f : ℕ) (h : Heap) (last x y : ℕ)
    → heap_next h x ≡ y
    → x + header_bytes ≤ last
    → y + header_bytes ≤ last
    → (h x).magic ≡ heap_magic
    → (h y).magic ≡ heap_magic
    → coalesce_loop (suc f) last x h ≡ (
        if is_free (h x) && is_free (h y)
        then coalesce_loop f last x (merge x y h)
        else coalesce_loop f last y h)
unfolding coalesce_loop
coalesce_loop-step f h last x y next bx by mx my =
    let here : leb (x + header_bytes) last ≡ true = ground arith in
    let there : leb (y + header_bytes) last ≡ true = ground arith in
    let one : ((h x).magic == heap_magic) ≡ true = ground arith in
    let two : ((h y).magic == heap_magic) ≡ true = ground arith in
    rw (next, here, there, one, two) refl

merge-Tiles :
    (h : Heap) (last x y : ℕ) (ys : List Ptr)
    → Tiles h x (x ∷ y ∷ ys) last
    → Tiles (merge x y h) x (x ∷ ys) last
unfolding merge
merge-Tiles h last x y ys t =
    let after = y + header_bytes + (h y).size in
    let rest : Tiles (merge x y h) after ys last =
      Tiles-frame h (merge x y h) after ys last t.3.3 (λ a lo. ground (arith, t.3.0)) in
    ground (arith, rest, t.3.0, t.3.2)

-- Two free blocks become one.
merge-IsMerged :
    (h h' : Heap) (last x y : ℕ) (ys zs : List Ptr)
    → Tiles h x (x ∷ y ∷ ys) last
    → (is_free (h x) && is_free (h y)) ≡ true
    → IsMerged (merge x y h) h' last x ys zs
    → IsMerged h h' last x (y ∷ ys) zs
unfolding merge
merge-IsMerged h h' last x y ys zs t both r = record {
  tiles = r.tiles;
  apart = r.apart;
  free = ground (arith, r.free);
  covered = λ a i e. elim (Bool-cases (a == x)) [
    | inl first ↦
        let (c, j, fr, lo, hi) = r.covered x (ground arith) (ground arith) in
        (c, j, fr, ground arith, ground (arith, t.3.0))
    | inr more ↦ elim (Bool-cases (a == y)) [
      | inl second ↦
          let (c, j, fr, lo, hi) = r.covered x (ground arith) (ground arith) in
          (c, j, fr, ground (arith, t.3.0), ground (arith, t.3.0))
      | inr rest ↦
          let (c, j, fr, lo, hi) = r.covered a (ground arith) (ground arith) in
          (c, j, fr, lo, ground arith)
    ]
  ];
  kept = λ a i u. ground (arith, r.kept a);
  front = λ a lt. ground (arith, r.front a lt);
}

coalesce_loop-IsMerged :
    (f : ℕ) (h : Heap) (last x : ℕ) (xs : List Ptr)
    → Tiles h x (x ∷ xs) last
    → x % 16 ≡ 0
    → last + 16 ≤ 2 ^ 64
    → length xs + 1 < f
    → (h' : Heap) × (ys : List Ptr) × (coalesce_loop f last x h ≡ some h')
      × IsMerged h h' last x xs ys
unfolding coalesce_loop
coalesce_loop-IsMerged zero h last x xs t al room fuel = absurd (omega arith)
coalesce_loop-IsMerged (suc f) h last x [] t al room fuel =
    let inside = Tiles-le h x (x ∷ []) last x t (ground arith) in
    let next = heap_next-tile h x al t.2 (omega (arith, inside.1)) in
    (
      h,
      [],
      ground (arith, next, t),
      record {
        tiles = t;
        apart = tt;
        free = refl;
        covered = λ a i e. (a, i, e, omega arith, omega arith);
        kept = λ a i u. (i, refl);
        front = λ a lt. refl;
      },
    )
coalesce_loop-IsMerged (suc f) h last x (y ∷ ys) t al room fuel =
    let inside = Tiles-le h x (x ∷ y ∷ ys) last x t (ground arith) in
    let next : heap_next h x ≡ y = heap_next-tile h x al t.2 (omega (arith, inside.1)) ∙ t.3.0 in
    let far = Tiles-le h x (x ∷ y ∷ ys) last y t (ground arith) in
    let my : y % 16 ≡ 0 = ground (arith, t.2, t.3.0) in
    let step =
      coalesce_loop-step f h last x y next (omega (arith, inside.1)) (omega (arith, far.1)) t.1
        t.3.1 in
    elim (Bool-cases (is_free (h x) && is_free (h y))) [
      | inl both ↦
          let (h', zs, run, r) =
            coalesce_loop-IsMerged f (merge x y h) last x ys (merge-Tiles h last x y ys t) al room
              (omega arith) in
          (h', zs, step ∙ rw both run, merge-IsMerged h h' last x y ys zs t both r)
      | inr not_both ↦
          let (h', zs, run, r) =
            coalesce_loop-IsMerged f h last y ys (refl, t.3.1, t.3.2, t.3.3) my room
              (omega arith) in
          (
            h',
            y ∷ zs,
            step ∙ rw not_both run,
            record {
              tiles = ground (arith, r.tiles, r.front x);
              apart = (ground (arith, r.front x, r.free), r.apart);
              free = ground (arith, r.front x);
              covered = λ a i e. elim (Bool-cases (a == x)) [
                | inl first ↦ (
                  x,
                  ground arith,
                  ground (arith, r.front x),
                  ground arith,
                  ground (arith, r.front x),
                )
                | inr more ↦
                    let (c, j, fr, lo, hi) = r.covered a (ground arith) e in
                    (c, ground arith, fr, lo, hi)
              ];
              kept = λ a i u. ground (arith, r.kept a, r.front x);
              front = λ a lt. r.front a (ground (arith, t.3.0));
            },
          )
    ]

free-Tiles :
    (h : Heap) (p b : ℕ) (xs : List Ptr) (last : ℕ)
    → Tiles h p xs last
    → Tiles (update h b (set_free (h b))) p xs last
free-Tiles h p b [] last t = t
free-Tiles h p b (x ∷ xs) last t =
    ground (arith, free-Tiles h (x + header_bytes + (h x).size) b xs last t.3)

-- Freeing a block of a heap whose headers lie side by side, by the address of its payload, ends:
-- the block freed, and each block that was free, lies in a free block; all free neighbours are
-- merged, so that no two are left side by side; the headers still lie side by side, and every other
-- block in use is as it was. The block is to have a payload of at least one byte.
pub heap_free-IsMerged :
    (f : ℕ) (h : Heap) (heap bytes b : ℕ) (xs : List Ptr)
    → Tiles h heap (heap ∷ xs) (heap + bytes)
    → heap ≢ null
    → heap % 16 ≡ 0
    → heap + bytes + 16 ≤ 2 ^ 64
    → has b (heap ∷ xs) ≡ true
    → 0 < (h b).size
    → length xs + 1 < f
    → (h' : Heap) × (ys : List Ptr) × (heap_free f heap bytes (b + header_bytes) h ≡ some h')
      × IsMerged (update h b (set_free (h b))) h' (heap + bytes) heap xs ys
unfolding heap_free heap_coalesce
heap_free-IsMerged f h heap bytes b xs t nh al room i some_size fuel =
    let h1 = update h b (set_free (h b)) in
    let last = heap + bytes in
    let inside = Tiles-le h heap (heap ∷ xs) last b t i in
    let magic = Tiles-magic h heap (heap ∷ xs) last b t i in
    let (h', ys, run, r) =
      coalesce_loop-IsMerged f h1 last heap xs (free-Tiles h heap b (heap ∷ xs) last t) al room
        fuel in
    let back : b + header_bytes - header_bytes ≡ b = omega arith in
    let within : (ltb (b + header_bytes) (heap + header_bytes) || leb last (b + header_bytes))
        ≡ false =
      ground (arith, inside) in
    let good : ((h b).magic == heap_magic) ≡ true = ground arith in
    let solid : (b + header_bytes == null) ≡ false = ground arith in
    (h', ys, rw (back, ==-false heap null nh, solid, within, good) run, r)
