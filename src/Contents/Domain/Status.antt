-- ===== src/Contents/Domain/Status.antt =====
-- The statuses of packages/database/prisma/schema.prisma and the allowed editorial transitions.
use ai_content_operating_sys.Base.{ℕ, Bool, not, ◌&&◌, ◌||◌, List, [], ◌∷◌, any, ◌==◌}

pub data EditorialStatus : Type 0 where
  idea researching outlined draft in_review changes_requested approved : EditorialStatus
  ready_to_publish published archived : EditorialStatus

-- its place in the enumeration
abbrev pub rank : EditorialStatus → ℕ
rank idea = 0
rank researching = 1
rank outlined = 2
rank draft = 3
rank in_review = 4
rank changes_requested = 5
rank approved = 6
rank ready_to_publish = 7
rank published = 8
rank archived = 9

-- `a === b`
abbrev pub same : EditorialStatus → EditorialStatus → Bool
same a b = rank a == rank b

-- `xs.includes(s)`
abbrev pub one_of : List EditorialStatus → EditorialStatus → Bool
one_of xs s = any (same s) xs

-- `ALLOWED_EDITORIAL_TRANSITIONS`
abbrev pub allowed_editorial_transitions : EditorialStatus → List EditorialStatus
allowed_editorial_transitions idea = researching ∷ draft ∷ []
allowed_editorial_transitions researching = outlined ∷ draft ∷ []
allowed_editorial_transitions outlined = draft ∷ []
allowed_editorial_transitions draft = in_review ∷ []
allowed_editorial_transitions in_review = changes_requested ∷ approved ∷ []
allowed_editorial_transitions changes_requested = draft ∷ []
allowed_editorial_transitions approved = ready_to_publish ∷ []
allowed_editorial_transitions ready_to_publish = published ∷ []
allowed_editorial_transitions published = []
allowed_editorial_transitions archived = []

unfoldable pub can_transition_editorial_status : EditorialStatus → EditorialStatus → Bool
can_transition_editorial_status current next =
    same next archived && not (same current archived)
    || one_of (allowed_editorial_transitions current) next
