-- ===== src/Routing/Tests.antt =====
-- The batcher's theorems at a run over two applications.
use appx_forge.Base.{◌≡◌, ◌<◌, none, false, List, [], ◌∷◌, ◌++◌, length}
use appx_forge.Routing.{default_max_buf, new_batcher}
use appx_forge.Routing.Requests.{
  Request, running, stopped, timer_fires, stops, serve_all, routes_after, all_asked,
}
use appx_forge.Routing.Delivery.{serve_all-Delivery, serve_all-room}

abbrev requests : List Request
requests =
    running "a" "1" "10.0.0.1:40000"
    ∷ running "b" "2" "10.0.0.1:40001"
    ∷ timer_fires
    ∷ stopped "b"
    ∷ running "a" "1" "10.0.0.2:40000"
    ∷ running "c" "3" ""
    ∷ []

serve_all-Delivery_example :
    routes_after "a" (serve_all (requests ++ stops ∷ []) new_batcher).0 none
    ≡ all_asked "a" false requests none
serve_all-Delivery_example = serve_all-Delivery "a" none requests

serve_all-room_example : length (serve_all requests new_batcher).1.pending < default_max_buf
serve_all-room_example = serve_all-room requests
