-- ===== src/Examples/Connecting.antt =====
-- The first connect of a client that does not reconnect.
use gboost_rpc.Base.{ℕ, ◌≡◌, refl, true, false, Option, some, List, [], ◌∷◌, length, ok}
use gboost_rpc.RpcChannel.{read_started}
use gboost_rpc.Client.{new_client}
use gboost_rpc.Dispatcher.Life.{Life, new_life, released}
use gboost_rpc.Client.Connecting.{RpcClientImpl, new_impl, connect, connect_lem}

abbrev address_size : List ℕ → Option ℕ
address_size text = some (length text)

abbrev local_host : List ℕ
local_host = 58 ∷ 58 ∷ 49 ∷ []

connect_lem_example :
    (k' : RpcClientImpl (List ℕ)) × (connect address_size
        (new_impl false)
        local_host
        8080
        500
        (false ∷ [])
      ≡ ok (k', read_started ∷ [], true))
    × (k'.connection ≡ some (new_client false))
    × (k'.loop_thread ≡ true)
    × (connect address_size k' local_host 8080 500 [] ≡ ok (k', [], false))
connect_lem_example =
    connect_lem address_size (new_impl false) local_host 8080 500 3 false [] [] refl refl refl

-- A Stop that waits, with a call of AsyncStop before it.
abbrev waiting_life : Life
waiting_life = record new_life { stop_at = released; need_stop = true; posted = 2 }
