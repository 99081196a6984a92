-- ===== src/Dma/Window.antt =====
-- dma_window_contains_range, the two aliases and dma_device_view, src/dma.cc.
use micro_kernel_using_c_plu.Prelude.{
  ℕ, ◌+◌, ◌-◌, ◌%◌, ◌^◌, ◌≤◌, ◌<◌, true, false, ◌≡◌, refl, ap, ◌∙◌, arith,
}
use micro_kernel_using_c_plu.Dma.{
  Setup, normal_start, normal_end, alias_offset, dma_window_contains_range,
  dma_window_to_nocache_alias, dma_window_from_nocache_alias, dma_cache_maint_allowed,
  dma_device_view,
}

-- A range in the window is not empty, does not wrap, and lies between the window's ends.
pub record IsInside (s : Setup) (p len : ℕ) : Type 0 where
  pub present : 0 < p
  pub some_bytes : 0 < len
  pub from_start : s.window_start ≤ p
  pub to_end : p + len ≤ s.window_end

dma_window_contains_range-IsInside :
    (s : Setup) (p len : ℕ)
    → p < 2 ^ 64
    → len < 2 ^ 64
    → s.window_end < 2 ^ 64
    → dma_window_contains_range s p len ≡ true
    → IsInside s p len
unfolding dma_window_contains_range
dma_window_contains_range-IsInside s p len hp hl he e = record {
  present = ground arith;
  some_bytes = ground arith;
  from_start = ground arith;
  to_end = ground arith;
}

-- The alias of a range inside the window leads back to the range, wherever the linker puts a window
-- below the alias's offset from the top.
pub dma_window_from_nocache_alias-to :
    (s : Setup) (p len : ℕ)
    → p < 2 ^ 64
    → len < 2 ^ 64
    → s.window_end < 2 ^ 63
    → dma_window_contains_range s p len ≡ true
    → (dma_window_to_nocache_alias s p len ≡ p + alias_offset)
      × (dma_window_from_nocache_alias s (dma_window_to_nocache_alias s p len) len ≡ p)
unfolding dma_window_to_nocache_alias dma_window_from_nocache_alias
dma_window_from_nocache_alias-to s p len hp hl he e =
    let i = dma_window_contains_range-IsInside s p len hp hl (omega arith) e in
    let fits : p + alias_offset < 2 ^ 64 = omega (arith, i.to_end) in
    let back : (p + alias_offset + 2 ^ 64 - alias_offset) % 2 ^ 64 ≡ p = omega arith in
    let there : (p + alias_offset) % 2 ^ 64 ≡ p + alias_offset = omega arith in
    rw (e, there, back, e) (refl, (ground (arith, i.present, i.some_bytes)))

-- A range whose cache lines may be maintained lies in cacheable RAM. With the MMU on, the device
-- reaches it one offset higher, at an address that is never maintained in its turn.
pub dma_device_view-IsUncached :
    (s : Setup) (buf len : ℕ)
    → buf < 2 ^ 64
    → len < 2 ^ 64
    → s.translation ≡ true
    → dma_cache_maint_allowed s buf len ≡ true
    → (normal_start ≤ buf)
      × (buf + len ≤ normal_end)
      × (dma_device_view s buf len ≡ buf + alias_offset)
      × (dma_cache_maint_allowed s (dma_device_view s buf len) len ≡ false)
unfolding dma_device_view dma_cache_maint_allowed
dma_device_view-IsUncached s buf len hb hl t e =
    let low : normal_start ≤ buf = ground arith in
    let high : buf + len ≤ normal_end = ground arith in
    let view : dma_device_view s buf len ≡ buf + alias_offset = ground arith in
    (low, high, view, ap (λ b. dma_cache_maint_allowed s b len) view ∙ ground arith)
