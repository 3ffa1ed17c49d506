-- ===== src/Tests/Races.antt =====
-- Two goroutines with one policy.
use atomfs.Base.{ℕ, zero, suc, ◌<◌, ◌⊎◌, arith, ◌≡◌, refl, true, false}
use atomfs.Extract.Race.{
  unlock, finished, Shared, Place, waiting, checking, working, using, selecting, leaving, unlocking,
  crashed, Move, seen, unseen, lock, first, refuse, use_it, select, crash_it, publish, System,
  update, move, fresh, Reach, start, later,
}
use atomfs.Extract.Race.Safety.{single_selection}
use atomfs.Extract.Race.Bounds.{Run, still, more, Move-ahead}
use atomfs.Extract.Race.Progress.{CanMove, Run-completes}

abbrev after : System → ℕ → Shared → Place → System
after s i t p = record { shared = t; place = update s.place i p }

go :
    {s : System} (i : ℕ) (t : Shared) (p : Place)
    → Reach s
    → Move s.shared (s.place i) t p
    → Reach (after s i t p)
go i t p r m = later r (move i m)

-- The initializer has the mutex and goes on in the directory; the other goroutine waits.
abbrev held : Shared
held = record { locked = true; initialized = false; chosen = false; refused = false }

abbrev opened : System
opened = after (after (after fresh 0 fresh.shared waiting) 0 held checking) 0 held (working true)

opened-Reach : Reach opened
opened-Reach =
    go 0 held (working true)
      (go 0 held checking (go 0 fresh.shared waiting start (unseen refl)) (lock refl)) (first refl)

abbrev selects : System
selects = after (after opened 1 held waiting) 0 held (selecting true)

selects-Reach : Reach selects
selects-Reach =
    go 0 held (selecting true) (go 1 held waiting opened-Reach (unseen refl)) (select refl)

single_selection_example :
    (◌≡◌ {A = ℕ} 0 0) × (selects.shared.initialized ≡ false) × (selects.shared.chosen ≡ false)
single_selection_example = single_selection selects-Reach 0 0 true true refl refl

-- The initializer returns early, and the other goroutine calls a nil `Extractor`.
abbrev refused_then : Shared
refused_then = record { locked = true; initialized = false; chosen = false; refused = true }

abbrev marked_then : Shared
marked_then = record { locked = true; initialized = true; chosen = false; refused = true }

abbrev poisoned : System
poisoned = after (after opened 0 refused_then (leaving true)) 0 marked_then unlocking

abbrev crashes : System
crashes =
    after (after (after poisoned 1 marked_then (working false)) 1 marked_then (using false)) 1
      marked_then crashed

poisoned-Reach : Reach poisoned
poisoned-Reach =
    go 0 marked_then unlocking (go 0 refused_then (leaving true) opened-Reach refuse) (publish refl)

crashes-Reach : Reach crashes
crashes-Reach =
    go 1 marked_then crashed
      (go 1 marked_then (using false) (go 1 marked_then (working false) poisoned-Reach (seen refl))
        (use_it refl))
      (crash_it refl)

-- One goroutine that returns early, and can do nothing more.
abbrev done : Shared
done = record { locked = false; initialized = true; chosen = false; refused = true }

abbrev alone : System
alone =
    after (after (after opened 0 refused_then (leaving true)) 0 marked_then unlocking) 0 done
      finished

opened-Run : Run 1 fresh 3 opened
opened-Run =
    more
      (more (more still 0 (omega arith) {u = fresh.shared} {p = waiting} (unseen refl)) 0
        (omega arith) {u = held} {p = checking} (lock refl))
      0 (omega arith) {u = held} {p = working true} (first refl)

alone-Run : Run 1 fresh 6 alone
alone-Run =
    more
      (more (more opened-Run 0 (omega arith) {u = refused_then} {p = leaving true} refuse) 0
        (omega arith) {u = marked_then} {p = unlocking} (publish refl))
      0 (omega arith) {u = done} {p = finished} unlock

alone-stuck : (j : ℕ) → j < 1 → CanMove alone j → ⊥
alone-stuck zero l (u, p, m) = omega (arith, Move-ahead m)
alone-stuck (suc j) l c = absurd (omega (arith, l))

Run-completes_example :
    (alone.place 0 ≡ finished) ⊎ ((alone.place 0 ≡ crashed) × (alone.shared.refused ≡ true))
Run-completes_example = Run-completes alone-Run alone-stuck 0 (omega arith)
