-- ===== src/SpinLock/Tests.antt =====
-- Three threads of which one writes, and of which one has read.
use pothos_core.Base.{◌≡◌, refl, [], ◌∷◌, arith}
use pothos_core.SpinLock.{
  idle, loaded, writing, System, Reach, start, later, pick, load_shared, swap_shared, unlock_shared,
  swap_lock, writer_lock,
}
use pothos_core.SpinLock.Safety.{reads, writes, writer_alone}

abbrev written : System
written = record { lock = writer_lock; threads = idle ∷ writing ∷ loaded 0 ∷ [] }

written-Reach : Reach 3 written
written-Reach = later (later start (pick 2 refl load_shared)) (pick 1 refl (swap_lock refl))

abbrev left : System
left = record { lock = 0; threads = idle ∷ idle ∷ [] }

left-Reach : Reach 2 left
left-Reach =
    later
      (later (later start (pick 0 refl load_shared))
        (pick 0 refl (swap_shared (λ e. absurd (omega arith)) refl)))
      (pick 0 refl unlock_shared)

writer_example : (reads (loaded 0) ≡ 0) × (writes (loaded 0) ≡ 0)
writer_example =
    writer_alone 3 written 1 2 writing (loaded 0) (omega arith) written-Reach
      (λ e. absurd (omega arith)) refl refl refl
