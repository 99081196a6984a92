-- ===== src/Mmu/Outside.antt =====
-- What the loops of src/arch/aarch64/mmu.cc that fill a table leave as it was.
use micro_kernel_using_c_plu.Prelude.{ℕ, zero, suc, ◌+◌, ◌*◌, ◌≤◌, ◌<◌, ◌≡◌, ◌≢◌, ◌⊎◌, refl, arith}
use micro_kernel_using_c_plu.Mmu.{
  Place, Tables, entry, set_entry, extra_tables, fill_table, split_page, split_block,
}

-- `t'` differs from `t` at most in the entry of one block and in the table at `l3`.
pub record SameOutside (p : Place) (block l3 : ℕ) (t t' : Tables) : Type 0 where
  pub words : (a : ℕ) → a ≢ entry p.l2_ram block → (a < l3) ⊎ (l3 + 4096 ≤ a) → t'.word a ≡ t.word a
  pub bounded : t'.extra_next ≤ extra_tables

pub fill_table-outside :
    (n table i a : ℕ) (value : ℕ → ℕ) (t : Tables)
    → (a < table) ⊎ (table + 8 * (i + n) ≤ a)
    → ((fill_table n table i value t).word a ≡ t.word a)
      × ((fill_table n table i value t).extra_next ≡ t.extra_next)
unfolding fill_table
fill_table-outside zero table i a value t out = (refl, refl)
fill_table-outside (suc n) table i a value t out =
    let rest =
      fill_table-outside n table (i + 1) a value (set_entry table i (value i) t) (ground arith) in
    ground (arith, rest)

pub split_block-SameOutside :
    (p : Place) (block : ℕ) (t : Tables)
    → t.extra_next < extra_tables
    → SameOutside p block (p.l3_extra + 4096 * t.extra_next) t (split_block p block t)
unfolding split_block
split_block-SameOutside p block t room = record {
  words = λ a ne out. ground (
    arith,
    fill_table-outside 512 (p.l3_extra + 4096 * t.extra_next) 0 a
        (split_page (t.word (entry p.l2_ram block)) block)
        (record t { extra_next = t.extra_next + 1 }) (ground arith),
  );
  bounded = ground (
    arith,
    fill_table-outside 512 (p.l3_extra + 4096 * t.extra_next) 0
        (p.l3_extra + 4096 * t.extra_next + 4096) (split_page (t.word (entry p.l2_ram block)) block)
        (record t { extra_next = t.extra_next + 1 }) (ground arith),
  );
}
