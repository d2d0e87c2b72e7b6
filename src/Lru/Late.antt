-- ===== src/Lru/Late.antt =====
-- A deletion that a `Get` of store/lru.go has started, and that runs after a write of the key.
use lcache.Value.{Value}
use lcache.Lru.System.{System}
