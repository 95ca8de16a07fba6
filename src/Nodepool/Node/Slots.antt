-- ===== src/Nodepool/Node/Slots.antt =====
-- What a node holds of its concurrency semaphore: `TryAcquire`, `Acquire` and `Release`.
use go_lib.Base.{
  ap, not, ℕ, ◌+◌, ◌≤◌, ◌<◌, ◌≡◌, refl, Bool, true, false, Option, none, some, is_some, arith,
  if◌then◌else◌,
}
use go_lib.Nodepool.Types.{Platform}
use go_lib.Nodepool.Node.{
  await_slot, await_rate, await_minute, acquire, Node, Blocking, try_acquire, release, take_slot,
  pass_rate, pass_minute,
}

module _ ⦃p : Platform⦄ where
  open p use {Semaphore, sem_try_acquire, sem_release, Failure}

  -- What golang.org/x/sync/semaphore documents, for a weight of one. `Release` of more than is
  -- held panics, so nothing is known of it.
  pub record SemaphoreLaws : Type 0 where
    pub held : Semaphore → ℕ
    pub acquired :
        (s : Semaphore) → (sem_try_acquire s).0 ≡ true → held (sem_try_acquire s).1 ≡ held s + 1
    pub refused :
        (s : Semaphore) → (sem_try_acquire s).0 ≡ false → held (sem_try_acquire s).1 ≡ held s
    pub released : (s : Semaphore) → 0 < held s → held (sem_release s) + 1 ≡ held s

  -- `Acquire` of the semaphore takes a slot if it returns nil and none if it returns an error.
  pub record BlockingLaws (laws : SemaphoreLaws) (b : Blocking) : Type 0 where
    pub acquired :
        (s : Semaphore)
        → (b.sem_acquire s).0 ≡ none
        → laws.held (b.sem_acquire s).1 ≡ laws.held s + 1
    pub refused :
        (s : Semaphore) {e : Failure}
        → (b.sem_acquire s).0 ≡ some e
        → laws.held (b.sem_acquire s).1 ≡ laws.held s

  module _ (laws : SemaphoreLaws) where
    open laws use {held}

    abbrev pub slots : Node → ℕ
    slots n = elim n.conc_sem [ none ↦ 0 | some s ↦ held s ]

    -- What one caller holds after it was let in.
    abbrev pub share : Node → ℕ
    share n = if is_some n.conc_sem then 1 else 0

    -- They depend on the semaphore alone.
    pub slots-eq :
        (n m : Node) → n.conc_sem ≡ m.conc_sem → (slots n ≡ slots m) × (share n ≡ share m)
    slots-eq n m e =
        (ap (λ o. elim o [ none ↦ 0 | some s ↦ held s ]) e, ap (λ o. if is_some o then 1 else 0) e)

    -- The effect of one step on the slots: one more or one less, by the caller's share, or none.
    abbrev Took : Bool → Node → Node → Type 0
    Took ok n m = (slots m ≡ slots n + (if ok then share n else 0)) × (share m ≡ share n)

    Took-take_slot_of :
        (n : Node) (o : Option Semaphore) → n.conc_sem ≡ o → Took (take_slot n).0 n (take_slot n).1
    unfolding take_slot
    Took-take_slot_of n none e = ground arith
    Took-take_slot_of n (some s) e = ground (arith, laws.acquired s, laws.refused s)

    Took-pass_rate : (now : ℕ) (n : Node) → Took false n (pass_rate now n).1
    unfolding pass_rate
    Took-pass_rate now n = ground arith

    Took-pass_minute : (now : ℕ) (n : Node) → Took false n (pass_minute now n).1
    unfolding pass_minute
    Took-pass_minute now n = ground arith

    slots-release_of :
        (n : Node) (o : Option Semaphore)
        → n.conc_sem ≡ o
        → share n ≤ slots n
        → (slots (release n) + share n ≡ slots n) × (share (release n) ≡ share n)
    unfolding release
    slots-release_of n none e h = ground arith
    slots-release_of n (some s) e h = ground (arith, laws.released s)

    -- Giving back what one caller holds takes exactly its share away.
    pub slots-release :
        (n : Node)
        → share n ≤ slots n
        → (slots (release n) + share n ≡ slots n) × (share (release n) ≡ share n)
    slots-release n h = slots-release_of n n.conc_sem refl h

    -- If the semaphore behaves as documented, a `TryAcquire` that succeeds takes exactly one slot of
    -- a node with a concurrency limit and none of a node without, and one that fails takes none,
    -- whichever of the three limits refused; whether the node has a limit does not change.
    pub slots-try_acquire :
        (now : ℕ) (n : Node)
        → let r = try_acquire now n in
          (slots r.1 ≡ slots n + (if r.0 then share n else 0)) × (share r.1 ≡ share n)
    unfolding try_acquire
    slots-try_acquire now n =
        let (_, n₁) = take_slot n in
        let (_, n₂) = pass_rate now n₁ in
        let (_, n₃) = pass_minute now n₂ in
        ground (
          arith,
          Took-take_slot_of n n.conc_sem refl,
          Took-pass_rate now n₁,
          Took-pass_minute now n₂,
          slots-release n₂,
          slots-release n₃,
        )

    module _ (b : Blocking) (blocks : BlockingLaws laws b) where
      Took-await_slot_of :
          (n : Node) (o : Option Semaphore) (r : Option Failure)
          → n.conc_sem ≡ o
          → (await_slot b n).0 ≡ r
          → Took (not (is_some r)) n (await_slot b n).1
      unfolding await_slot
      Took-await_slot_of n none none e h = ground arith
      Took-await_slot_of n none (some x) e h = ground arith
      Took-await_slot_of n (some s) none e h = ground (arith, blocks.acquired s)
      Took-await_slot_of n (some s) (some x) e h = ground (arith, blocks.refused s {e = x})

      Took-await_rate : (n : Node) → Took false n (await_rate b n).1
      unfolding await_rate
      Took-await_rate n = ground arith

      Took-await_minute : (n : Node) → Took false n (await_minute b n).1
      unfolding await_minute
      Took-await_minute n = ground arith

      -- If the semaphore behaves as documented, a blocking `Acquire` that returns nil takes exactly
      -- one slot of a node with a concurrency limit and none of a node without, and one that returns
      -- an error takes none, whichever of the three limits it comes from; whether the node has a
      -- limit does not change.
      pub slots-acquire :
          (n : Node)
          → let r = acquire b n in
            (slots r.1 ≡ slots n + (if is_some r.0 then 0 else share n)) × (share r.1 ≡ share n)
      unfolding acquire
      slots-acquire n =
          let (_, n₁) = await_slot b n in
          let (_, n₂) = await_rate b n₁ in
          let (_, n₃) = await_minute b n₂ in
          ground (
            arith,
            Took-await_slot_of n n.conc_sem (await_slot b n).0 refl refl,
            Took-await_rate n₁,
            Took-await_minute n₂,
            slots-release n₂,
            slots-release n₃,
          )
