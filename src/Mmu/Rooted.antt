-- ===== src/Mmu/Rooted.antt =====
-- The words that build_identity_map of src/arch/aarch64/mmu.cc writes in the first two levels.
use Prim.Native.Nat.{bit_or}
use micro_kernel_using_c_plu.Prelude.{ℕ, ◌+◌, ◌*◌, ◌≤◌, ◌<◌, ◌≡◌, ◌⊎◌, ◌∙◌, arith}
use micro_kernel_using_c_plu.Mmu.{
  Place, Tables, entry, set_entry, never_execute, attr_device, attr_normal, attr_normal_nc,
  ram_base, l2_block_size, pte_table, pte_block, fill_table,
}
use micro_kernel_using_c_plu.Mmu.Outside.{fill_table-outside}
use micro_kernel_using_c_plu.Mmu.Window.{IsPlace, Apart, IsWindowed}

-- What the first two levels hold.
pub record IsRooted (p : Place) (t : Tables) : Type 0 where
  pub root : t.word (entry p.l0 0) ≡ pte_table p.l1
  pub devices : t.word (entry p.l1 0) ≡ bit_or (pte_block 0 attr_device 0) never_execute
  pub memory : t.word (entry p.l1 1) ≡ pte_table p.l2_ram
  pub uncached : t.word (entry p.l1 2) ≡ bit_or (pte_block ram_base attr_normal_nc 3) never_execute

abbrev pub plain_block : ℕ → ℕ
plain_block i = pte_block (ram_base + i * l2_block_size) attr_normal 3

pub windowed-IsRooted :
    (p : Place) (k l3 : ℕ) (t t' : Tables)
    → k < 512
    → Apart p.l0 p.l2_ram
    → Apart p.l1 p.l2_ram
    → Apart p.l0 l3
    → Apart p.l1 l3
    → IsWindowed p k l3 t t'
    → IsRooted p t
    → IsRooted p t'
windowed-IsRooted p k l3 t t' lt a b c d w r = record {
  root = w.outside (entry p.l0 0) (λ e. ground arith) (ground arith) ∙ r.root;
  devices = w.outside (entry p.l1 0) (λ e. ground arith) (ground arith) ∙ r.devices;
  memory = w.outside (entry p.l1 1) (λ e. ground arith) (ground arith) ∙ r.memory;
  uncached = w.outside (entry p.l1 2) (λ e. ground arith) (ground arith) ∙ r.uncached;
}

-- The state once the first two levels are written.
unfoldable pub root_words : Place → Tables → Tables
root_words p t = set_entry p.l1 2 (bit_or (pte_block ram_base attr_normal_nc 3) never_execute) (
    set_entry p.l1 1 (pte_table p.l2_ram) (
      set_entry p.l1 0 (bit_or (pte_block 0 attr_device 0) never_execute)
        (set_entry p.l0 0 (pte_table p.l1) t)))

pub root_words-IsRooted : (p : Place) (t : Tables) → IsPlace p → IsRooted p (root_words p t)
unfolding root_words
root_words-IsRooted p t is = record {
  root = ground (arith, is.l0_l1);
  devices = ground (arith, is.l0_l1);
  memory = ground arith;
  uncached = ground arith;
}

pub filled-IsRooted :
    (p : Place) (t : Tables)
    → IsPlace p
    → IsRooted p t
    → IsRooted p (fill_table 512 p.l2_ram 0 plain_block t)
filled-IsRooted p t is r =
    let kept = λ (a : ℕ) (out : (a < p.l2_ram) ⊎ (p.l2_ram + 4096 ≤ a)).
      (fill_table-outside 512 p.l2_ram 0 a plain_block t out).0 in
    record {
      root = kept (entry p.l0 0) (ground (arith, is.l0_l2)) ∙ r.root;
      devices = kept (entry p.l1 0) (ground (arith, is.l1_l2)) ∙ r.devices;
      memory = kept (entry p.l1 1) (ground (arith, is.l1_l2)) ∙ r.memory;
      uncached = kept (entry p.l1 2) (ground (arith, is.l1_l2)) ∙ r.uncached;
    }
