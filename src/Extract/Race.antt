-- ===== src/Extract/Race.antt =====
-- Goroutines that call ExtractSingleSquashPolicy (pkg/squashfs/squashfs.go) or
-- ExtractSingleErofsPolicy (pkg/erofs/erofs.go) with one policy, interleaved in any order at their
-- reads and writes of the fields that they share.
pub mod Bounds
pub mod Invariant
pub mod Keep
pub mod Progress
pub mod Refinement
pub mod Safety
use atomfs.Base.{ℕ, ◌≡◌, Bool, true, false, ◌||◌, ◌==◌, if◌then◌else◌}

-- The mutex, the flag, and whether `Extractor` or the excuse of the initialization is set.
-- `refused` says that the initializer has returned early, without a directory.
pub record Shared : Type 0 where
  pub locked : Bool
  pub initialized : Bool
  pub chosen : Bool
  pub refused : Bool

-- Where a goroutine stands. The argument says whether it has deferred the end of the initialization.
pub data Place : Type 0 where
  entry : Place  -- before the first test of `initialized`
  waiting : Place  -- before `mutex.Lock()`
  checking : Place  -- before the second test, with the mutex
  working : Bool → Place  -- from `os.MkdirAll` to the third test
  using : Bool → Place  -- behind the third test, the policy being initialized
  selecting : Bool → Place  -- in the loop over the extractors
  leaving : Bool → Place  -- at a `return`, before the deferred functions
  unlocking : Place  -- before the deferred `mutex.Unlock()`
  crashed : Place  -- a call of the nil `Extractor`
  finished : Place

-- One step of one goroutine.
pub data Move (s : Shared) : Place → Shared → Place → Type 0 where
  seen : s.initialized ≡ true → Move s entry s (working false)
  unseen : s.initialized ≡ false → Move s entry s waiting
  lock : s.locked ≡ false → Move s waiting (record s { locked = true }) checking
  beaten : s.initialized ≡ true → Move s checking (record s { locked = false }) (working false)
  first : s.initialized ≡ false → Move s checking s (working true)
  refuse : {d : Bool} → Move s (working d) (record s { refused = d || s.refused }) (leaving d)
  use_it : {d : Bool} → s.initialized ≡ true → Move s (working d) s (using d)
  select : {d : Bool} → s.initialized ≡ false → Move s (working d) s (selecting d)
  choose : {d : Bool} → Move s (selecting d) (record s { chosen = true }) (leaving d)
  mount_it : {d : Bool} → s.chosen ≡ true → Move s (using d) s (leaving d)
  crash_it : {d : Bool} → s.chosen ≡ false → Move s (using d) s crashed
  publish : {d : Bool} → d ≡ true → Move s (leaving d) (record s { initialized = true }) unlocking
  unlock : Move s unlocking (record s { locked = false }) finished
  back : {d : Bool} → d ≡ false → Move s (leaving d) s finished

-- The goroutines by their number.
pub record System : Type 0 where
  pub shared : Shared
  pub place : ℕ → Place

abbrev pub update : (ℕ → Place) → ℕ → Place → ℕ → Place
update f i p j = if i == j then p else f j

pub data Step (s : System) : System → Type 0 where
  move :
      (i : ℕ) {t : Shared} {p : Place}
      → Move s.shared (s.place i) t p
      → Step s (record { shared = t; place = update s.place i p })

-- A new policy, which nobody has called with yet.
abbrev pub fresh : System
fresh = record {
  shared = record { locked = false; initialized = false; chosen = false; refused = false };
  place = λ _. entry;
}

pub data Reach : System → Type 0 where
  start : Reach fresh
  later : {s t : System} → Reach s → Step s t → Reach t
