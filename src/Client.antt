-- ===== src/Client.antt =====
-- The requests of client.go, and the handlers of server.go that they reach on another node. What gRPC
-- does with a request is the type `Wire`, with `N` for its errors. `none` is a call that does not
-- return.
pub mod Remote
mod Tests
use lcache.Common.{Bool, List, Option, none, some, ◌⊎◌, inl, inr, ℕ}
use lcache.Common.Panics.{◌>>=◌}
use lcache.Value.{Key}
use lcache.Group.{World}
use lcache.Registry.{Registry, ServerError, handle_get, handle_set, handle_delete}

-- A request is lost, or reaches the node and is answered, or its answer is lost, as when the 3 seconds
-- of the client are over.
pub data Wire (N : Type 0) : Type 0 where
  arrives : Wire N
  request_lost answer_lost : N → Wire N

-- The error of a method: of gRPC, or the one that the handler has returned.
pub data ClientError (E N : Type 0) : Type 0 where
  of_wire : N → ClientError E N
  of_server : ServerError E → ClientError E N

abbrev pub received :
    {E N A : Type 0} → Registry × (ServerError E ⊎ A) → Registry × (ClientError E N ⊎ A)
received (r, inl e) = (r, inl (of_server e))
received (r, inr x) = (r, inr x)

-- A request to a node, by the state of its registry.
unfoldable pub request :
    {E N A : Type 0}
    → Wire N
    → (Registry → Option (Registry × (ServerError E ⊎ A)))
    → Registry
    → Option (Registry × (ClientError E N ⊎ A))
request (request_lost e) handler r = some (r, inl (of_wire e))
request (answer_lost e) handler r = do (r, answer) ← handler r; some (r, inl (of_wire e))
request arrives handler r = do answer ← handler r; some (received answer)

-- `Client.Get`, `Client.Set` and `Client.Delete`
unfoldable pub get :
    {E N : Type 0}
    → Wire N
    → World E
    → (group key : Key) → Registry
    → Option (Registry × (ClientError E N ⊎ List ℕ))
get wire w group key r = request wire (handle_get w group key) r

-- The error, if there is one.
abbrev pub error_of :
    {E N A : Type 0} → Registry × (ClientError E N ⊎ A) → Registry × Option (ClientError E N)
error_of (r, inl e) = (r, some e)
error_of (r, inr x) = (r, none)

unfoldable pub set :
    {E N : Type 0}
    → Wire N
    → World E
    → (group key : Key) → List ℕ
    → Registry
    → Option (Registry × Option (ClientError E N))
set wire w group key value r = do
  answer ← request wire (handle_set w group key value) r
  some (error_of answer)

unfoldable pub delete :
    {E N : Type 0}
    → Wire N
    → (group key : Key) → Registry
    → Option (Registry × (ClientError E N ⊎ Bool))
delete wire group key r = request wire (handle_delete group key) r
