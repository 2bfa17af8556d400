-- ===== src/Contents/Requests.antt =====
-- The requests that change contents, as data, and what serves each.
use ai_content_operating_sys.Base.{ℕ, List, [], ◌∷◌}
use ai_content_operating_sys.Errors.{Action, pure, ◌>>=◌}
use ai_content_operating_sys.Auth.Types.{AuthContext, WorkspaceContext}
use ai_content_operating_sys.Database.Client.{Client}
use ai_content_operating_sys.Database.Store.{Store}
use ai_content_operating_sys.Contents.Domain.Html.{HtmlLibrary}
use ai_content_operating_sys.Contents.Revisions.{Draws}
use ai_content_operating_sys.Contents.Transition.{
  TransitionContent, ArchiveContent, transition, archive,
}
use ai_content_operating_sys.Contents.Reviewing.{CreateContentReview, decide}
use ai_content_operating_sys.Contents.Editing.{CreateContent, UpdateContent, create_content, update}
use ai_content_operating_sys.Contents.Applying.{apply_ai_generation_candidate}

pub data Call : Type 0 where
  creating : CreateContent → Call
  updating : ℕ → UpdateContent → Call
  moving : ℕ → TransitionContent → Call
  archiving : ℕ → ArchiveContent → Call
  deciding : ℕ → CreateContentReview → Call
  applying : ℕ → ℕ → Call

pub record Request : Type 0 where
  pub actor : AuthContext
  pub workspace : WorkspaceContext
  pub website_id : ℕ
  pub draws : Draws
  pub call : Call

abbrev discard : {A : Type 0} → Action Store A → Action Store (Unit {0})
discard m = m >>= λ _. pure tt

module _ (db : Client) (lib : HtmlLibrary) where
  unfoldable pub serve : AuthContext → WorkspaceContext → ℕ → Draws → Call → Action Store (Unit {0})
  serve actor workspace site draws (creating i) =
      discard (create_content db lib draws actor workspace site i)
  serve actor workspace site draws (updating id i) =
      discard (update db lib draws actor workspace site id i)
  serve actor workspace site draws (moving id i) =
      discard (transition db draws actor workspace site id i)
  serve actor workspace site draws (archiving id i) =
      discard (archive db draws actor workspace site id i)
  serve actor workspace site draws (deciding id i) =
      discard (decide db draws actor workspace site id i)
  serve actor workspace site draws (applying id candidate) =
      discard (apply_ai_generation_candidate db lib draws actor workspace site id candidate)

  unfoldable pub run : Request → Action Store (Unit {0})
  unfolding serve
  run r = serve r.actor r.workspace r.website_id r.draws r.call

  -- Requests one after the other: one that throws does not stop the next.
  unfoldable pub run_all : List Request → Store → Store
  unfolding run
  run_all [] s = s
  run_all (r ∷ rs) s = run_all rs (run r s).1
