-- ===== src/Websocket/Chunks.antt =====
-- How the bytes of a connection of uclib/websocket.c are cut into reads makes no difference.
use uclib.Base.{ℕ, List, []}
use uclib.Websocket.{Main, Connection, open_with, closed}

module _ {ℓ} {S E : Type ℓ} (wsm : Main S E) where
  -- The bytes that wait.
  unfoldable pub buffered : Connection S E → List ℕ
  buffered (open_with s rx) = rx
  buffered (closed s reason) = []
