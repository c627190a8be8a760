-- ===== src/Rdma/Registration/Blocks.antt =====
-- The blocks that the threads touch.
use mooncake_maca_spdk_dmabu.Prelude.{
  ℕ, zero, suc, ◌+◌, ◌*◌, ◌/◌, ◌<◌, ◌≤◌, ◌≡◌, refl, ap, ◌∙◌, arith, Option, some, ltb,
  if◌then◌else◌, length, get_elem?,
}
use mooncake_maca_spdk_dmabu.Rdma.Regions.{Mr}
use mooncake_maca_spdk_dmabu.Rdma.Registration.{
  Settings, num_threads, block_starts, touch_block_size,
}

num_threads-positive : (hwc : ℕ) → 0 < hwc → 0 < num_threads hwc
unfolding num_threads
num_threads-positive hwc h = ground arith

next : (addr block_size i : ℕ) → (addr + block_size) + i * block_size ≡ addr + suc i * block_size
next addr block_size i = grind arith

start_lem :
    (n addr block_size i : ℕ)
    → i < n
    → get_elem? (block_starts n addr block_size) i ≡ some (addr + i * block_size)
unfolding block_starts
start_lem zero addr block_size i h = absurd (omega arith)
start_lem (suc n) addr block_size zero h = ap some (omega arith)
start_lem (suc n) addr block_size (suc i) h =
    start_lem n (addr + block_size) block_size i (omega arith) ∙ ap some (next addr block_size i)

blocks-fit : (length n block : ℕ) → 0 < n → block ≡ length / n → n * block ≤ length
blocks-fit length n block p e = grind arith

block_end : (n block i : ℕ) → i < n → i * block + block ≤ n * block
block_end n block i h = grind arith

module _ (settings : Settings) (garbage : Option Mr) where
  -- On a machine with a processor, thread number `i` touches a block that starts `i` blocks behind
  -- the address, and all the blocks lie inside the range.
  pub blocks-inside :
      (addr length i : ℕ)
      → 0 < settings.hardware_concurrency
      → i < num_threads settings.hardware_concurrency
      → (get_elem?
            (block_starts
              (num_threads settings.hardware_concurrency)
              addr
              (touch_block_size settings garbage length))
            i
          ≡ some (addr + i * touch_block_size settings garbage length))
        × (addr
              + i * touch_block_size settings garbage length
              + touch_block_size settings garbage length
            ≤ addr + length)
  unfolding touch_block_size
  blocks-inside addr length i p h =
      let n = num_threads settings.hardware_concurrency in
      let size = touch_block_size settings garbage length in
      let limited = if ltb settings.max_mr_size length then settings.max_mr_size else length in
      let le : limited ≤ length = ground arith in
      let fit =
        blocks-fit limited n size (num_threads-positive settings.hardware_concurrency p) refl in
      let end = block_end n size i h in (start_lem n addr size i h, omega arith)
