-- ===== src/Nodepool/World/Slots.antt =====
-- How the slots held of all nodes change when one node is acquired or released.
use go_lib.Base.{ℕ, ◌+◌, ◌≡◌, is_some, nat_beq, nat_beq_iff, arith, if◌then◌else◌}
use go_lib.Nodepool.Types.{Platform, Request}
use go_lib.Nodepool.Node.Slots.{
  SemaphoreLaws, BlockingLaws, slots, share, slots-try_acquire, slots-acquire, slots-release,
}
use go_lib.Nodepool.World.{World, Env, DoFunc, available_at, try_acquire_at, acquire_at, release_at}

module _ ⦃p : Platform⦄ (laws : SemaphoreLaws) where
  -- Each node j has `base j` slots held, and a caller's share of it is `sh j`.
  abbrev pub Holds : (ℕ → ℕ) → (ℕ → ℕ) → World → Type 0
  Holds sh base w = (j : ℕ) → (slots laws (w.heap j) ≡ base j) × (share laws (w.heap j) ≡ sh j)

  -- One more caller at node r.
  abbrev pub plus : (ℕ → ℕ) → (ℕ → ℕ) → ℕ → ℕ → ℕ
  plus sh base r j = base j + (if nat_beq j r then sh j else 0)

  -- What a `DoFunc` must do: leave the semaphores alone.
  abbrev pub KeepsSlots : DoFunc → Type 0
  KeepsSlots do_on =
      (w : World) (r : ℕ) (req : Request) (j : ℕ)
      → (slots laws ((do_on w r req).1.heap j) ≡ slots laws (w.heap j))
        × (share laws ((do_on w r req).1.heap j) ≡ share laws (w.heap j))

  module _ (sh base : ℕ → ℕ) (r : ℕ) (w : World) where
    pub release_at-Holds : Holds sh (plus sh base r) w → Holds sh base (release_at r w)
    unfolding release_at
    release_at-Holds h j =
        ground (arith, h j, h r, slots-release laws (w.heap r), nat_beq_iff j r, nat_beq_iff r r)

  module _ (env : Env) (sh base : ℕ → ℕ) (r : ℕ) (w : World) (h : Holds sh base w) where
    pub available_at-Holds : Holds sh base (available_at env r w).1
    unfolding available_at
    available_at-Holds = h

    pub try_acquire_at-Holds :
        Holds sh
          (if (try_acquire_at env r w).0 then plus sh base r else base)
          (try_acquire_at env r w).1
    unfolding try_acquire_at
    try_acquire_at-Holds j =
        ground
          (arith, h j, h r, slots-try_acquire laws (env.now w.tick) (w.heap r), nat_beq_iff j r)

    pub acquire_at-Holds :
        BlockingLaws laws (env.blocking w.tick)
        → Holds sh
            (if is_some (acquire_at env r w).0 then base else plus sh base r)
            (acquire_at env r w).1
    unfolding acquire_at
    acquire_at-Holds b j =
        ground
          (arith, h j, h r, slots-acquire laws (env.blocking w.tick) b (w.heap r), nat_beq_iff j r)
