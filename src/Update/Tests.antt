-- ===== src/Update/Tests.antt =====
-- A frame that is due, in a world of two characters of whom one moves.
use simple_poject.Common.{ℕ, ◌≡◌}
use simple_poject.Common.Outcome.{returned}
use simple_poject.World.{World}
use simple_poject.World.Consistent.{IsConsistent}
use simple_poject.World.Tests.{pair, pair-IsConsistent}
use simple_poject.Update.{update}
use simple_poject.Update.Kept.{update-IsConsistent}

update-IsConsistent_example :
    (timer : ℕ) × (w' : World) × (update pair 30 15 1000 ≡ returned (timer, w')) × IsConsistent w'
update-IsConsistent_example = update-IsConsistent pair 30 15 1000 pair-IsConsistent
