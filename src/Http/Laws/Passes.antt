-- ===== src/Http/Laws/Passes.antt =====
-- src/http_server.rs `poll_receive`: one pass is a call on the store.
use lqs.Prelude.{ℕ, List, [], ◌∷◌}
use lqs.Queue.External.{External}
use lqs.Store.Tables.{Db}
use lqs.Store.Receive.Page.{Request, receive_page}
use lqs.Store.Sound.Reach.{perform, Reachable, step, receive_call}
use lqs.Http.Requests.{ParsedReceiveRequest}
use lqs.Http.Handler.{Context, attempt}
use lqs.Http.Poll.{Pass, receive_pass}
use lqs.Http.Laws.Keeps.{Keeps, attempt-Keeps, keeps_rules}

-- What the others do between the passes is calls on the store, too.
abbrev pub AllReach : External → List Pass → Type 0
AllReach ext [] = Unit
AllReach ext (p ∷ ps) =
    ((db : Db) → Reachable ext db → Reachable ext (p.others db)) × AllReach ext ps

receive_page-Keeps :
    (ext : External) (request : Request)
    → Keeps (Reachable ext) (attempt (λ db. receive_page ext db request))
unfolding perform
receive_page-Keeps ext request = attempt-Keeps _ (λ db r. step db 0 (receive_call request) r)

module _ (ctx : Context) where
  pub receive_pass-Keeps :
      (parsed : ParsedReceiveRequest) (wait_ms deadline : ℕ) (p : Pass)
      → Keeps (Reachable ctx.web.external) (receive_pass ctx parsed wait_ms deadline p)
  unfolding receive_pass
  receive_pass-Keeps parsed wait_ms deadline p = search (keeps_rules, receive_page-Keeps) depth 8
