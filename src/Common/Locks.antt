-- ===== src/Common/Locks.antt =====
-- `sync.Mutex` and `sync.RWMutex` for one goroutine: whether it holds the lock. `Lock` of a lock that the
-- goroutine holds never returns: `none`.
use mathlib.Core.Bool.{Bool, true, false}
use mathlib.Core.Option.{Option, none, some}

unfoldable pub lock : (held : Bool) → Option Bool
lock true = none
lock false = some true
