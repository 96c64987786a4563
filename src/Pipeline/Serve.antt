-- ===== src/Pipeline/Serve.antt =====
-- A server that receives many requests (rpc/detail/rpc_server_impl.cc).
use gboost_rpc.Base.{ℕ, ◌<◌, ◌≡◌, refl, ap, ◌∙◌, some, List, [], ◌∷◌, map, All, length, ok}
use gboost_rpc.Protocol.{Meta, Protobuf, get_service_id, get_message_length}
use gboost_rpc.RpcData.{RpcData}
use gboost_rpc.Session.{request_meta, get_service_id_of}
use gboost_rpc.Server.{Server, get_service, called, call_method}
use gboost_rpc.Server.Services.{call_method_lem}
use gboost_rpc.Pipeline.{Issued, Arrived, nobody, arrive, serve_all, Answer, response_to}

module _ {M : Type 0} (pb : Protobuf M) (city_hash : List ℕ → ℕ) (num_methods : ℕ → ℕ)
    (reply : (service method : ℕ) → M → M) (s : Server) where
  -- The service that has the method of a call.
  pub record Registered (r : Issued M) : Type 0 where
    pub service : ℕ
    pub found : get_service s (get_service_id_of city_hash r.method.service_name) ≡ some service
    pub known : r.method.index < num_methods service

  abbrev pub request_of : Issued M → Meta × M
  request_of r = (request_meta pb city_hash r.number r.method r.request, r.request)

  abbrev pub answer_of : (r : Issued M) → Registered r → M
  answer_of r g = reply g.service r.method.index r.request

  -- The calls with what the services answer.
  abbrev pub answers_to : (rs : List (Issued M)) → All Registered rs → List (Answer M)
  answers_to [] gs = []
  answers_to (r ∷ rs) gs = (r, answer_of r gs.0) ∷ answers_to rs gs.1

  one_call :
      (r : Issued M) (g : Registered r) (d : RpcData M)
      → d.meta ≡ (request_of r).0
      → pb.from_array d.payload_binaries ≡ some r.request
      → get_message_length d.meta ≡ length d.payload_binaries
      → call_method pb num_methods s d
        ≡ ok (called g.service r.method.index r.request (request_of r).0)
  one_call r g d e parsed measured =
      call_method_lem pb num_methods s d g.service
        (ap (λ (m : Meta). get_service s (get_service_id m)) e ∙ g.found) (rw e g.known) measured
      ∙ rw (parsed, e) refl

  -- The server calls the method of each request, once and in order.
  pub serve_all-Arrived :
      (rs : List (Issued M)) (gs : All Registered rs) (ds : List (RpcData M))
      → Arrived pb (map request_of rs) ds
      → serve_all pb num_methods reply s ds ≡ ok (map (response_to pb city_hash) (answers_to rs gs))
  unfolding serve_all
  serve_all-Arrived [] gs _ nobody = refl
  serve_all-Arrived (r ∷ rs) gs _ (arrive {ds} d e parsed measured rest) =
      rw (one_call r gs.0 d e parsed measured, serve_all-Arrived rs gs.1 ds rest) refl
