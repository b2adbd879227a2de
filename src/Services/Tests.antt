-- ===== src/Services/Tests.antt =====
-- Calls on a pool of three io services.
use sakura_chat_server.Prelude.{◌≡◌, refl}
use sakura_chat_server.Services.{new_pool, get_io_service, after_calls, stop_pool}

fifth : (get_io_service (after_calls 4 (new_pool 3))).0 ≡ 1
unfolding get_io_service after_calls new_pool
fifth = refl

stop_twice : stop_pool (stop_pool (new_pool 0)) ≡ stop_pool (new_pool 0)
unfolding stop_pool new_pool
stop_twice = refl
