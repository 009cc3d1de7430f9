-- ===== src/Inventory/Azure.antt =====
-- `list_subscriptions` and `query_resources` of
-- apps/inventory-service/src/sentinel_inventory/azure.py, with Azure's answers as parameters, and the
-- handler `discover_subscriptions` of main.py.
use sentinel_keyvault.Common.{
  text_or_else, ℕ, zero, suc, ◌≡◌, refl, ap, ◌∙◌, Option, none, some, List, [], ◌∷◌, ◌++◌, Text,
  codes, length,
}
use sentinel_keyvault.Inventory.Models.{AzureSubscription, AzureRow, Subscription, Store}
use sentinel_keyvault.Inventory.Upsert.{upsert_subscription}
use mathlib.Core.List.{append_assoc}

-- A subscription as the client returns it.
pub record Listed : Type 0 where
  pub subscription_id : Option Text
  pub display_name : Option Text
  pub state : Option Text

abbrev subscription_of : ℕ → Text → Listed → AzureSubscription
subscription_of id text item = record {
  subscription_id = id;
  display_name = text_or_else item.display_name text;
  state = text_or_else item.state (codes "Unknown");
}

-- `parse_uuid` is Python's `UUID`; `none` is its `ValueError`. An item with no id is passed over.
pub list_subscriptions : (Text → Option ℕ) → List Listed → Option (List AzureSubscription)
list_subscriptions parse_uuid [] = some []
list_subscriptions parse_uuid (item ∷ items) =
    let rest = list_subscriptions parse_uuid items in
    elim item.subscription_id [
      | none ↦ rest
      | some [] ↦ rest
      | some (c ∷ cs) ↦ elim (parse_uuid (c ∷ cs)) [
        | none ↦ none
        | some id ↦ elim rest [
          | none ↦ none
          | some out ↦ some (subscription_of id (c ∷ cs) item ∷ out)
        ]
      ]
    ]

-- The response to one query.
pub record Page : Type 0 where
  pub rows : Option (List AzureRow)
  pub skip_token : Option Text

abbrev pub rows_of : Page → List AzureRow
rows_of p = elim p.rows [ none ↦ [] | some rows ↦ rows ]

-- How the loop ends; `running` is the loop when the fuel is used up.
pub data Fetch : Type 0 where
  done : List AzureRow → Fetch
  raised : Fetch
  running : Fetch

-- The loop of `query_resources`: `resources` answers a skip token, and `none` is its exception.
unfoldable pub query_resources :
    (Option Text → Option Page) → ℕ → Option Text → List AzureRow → Fetch
query_resources resources zero token rows = running
query_resources resources (suc fuel) token rows = elim (resources token) [
  | none ↦ raised
  | some p ↦ elim p.skip_token [
    | none ↦ done (rows ++ rows_of p)
    | some [] ↦ done (rows ++ rows_of p)
    | some (c ∷ cs) ↦ query_resources resources fuel (some (c ∷ cs)) (rows ++ rows_of p)
  ]
]

-- The handler's loop over what Azure lists.
pub discover_subscriptions : ℕ → List AzureSubscription → Store → List Subscription × Store
unfolding upsert_subscription
discover_subscriptions tenant_id [] store = ([], store)
discover_subscriptions tenant_id (source ∷ sources) store =
    let (row, after) = upsert_subscription tenant_id source store in
    let (rows, last) = discover_subscriptions tenant_id sources after in (row ∷ rows, last)

-- The token asks for a further page.
abbrev pub IsMore : Option Text → Type 0
IsMore none = ⊥
IsMore (some []) = ⊥
IsMore (some (c ∷ cs)) = Unit

-- The service answers a token with the first of these pages, and each page's token with the next,
-- and the last page has none.
abbrev pub Serves : (Option Text → Option Page) → Option Text → Page → List Page → Type 0
Serves resources token p [] = (resources token ≡ some p) × ¬ IsMore p.skip_token
Serves resources token p (q ∷ ps) =
    (resources token ≡ some p) × IsMore p.skip_token × Serves resources p.skip_token q ps

abbrev pub all_rows : Page → List Page → List AzureRow
all_rows p [] = rows_of p
all_rows p (q ∷ ps) = rows_of p ++ all_rows q ps

last_page :
    (resources : Option Text → Option Page) (fuel : ℕ) (token : Option Text) (p : Page)
    (rows : List AzureRow) (t : Option Text)
    → resources token ≡ some p
    → p.skip_token ≡ t
    → ¬ IsMore t
    → query_resources resources (suc fuel) token rows ≡ done (rows ++ rows_of p)
unfolding query_resources
last_page resources fuel token p rows none e s n =
    rw (e, query_resources) (rw (s, query_resources) refl)
last_page resources fuel token p rows (some []) e s n =
    rw (e, query_resources) (rw (s, query_resources) refl)
last_page resources fuel token p rows (some (c ∷ cs)) e s n = absurd (n tt)

more_page :
    (resources : Option Text → Option Page) (fuel : ℕ) (token : Option Text) (p : Page)
    (rows : List AzureRow) (t : Option Text)
    → resources token ≡ some p
    → p.skip_token ≡ t
    → IsMore t
    → query_resources resources (suc fuel) token rows
      ≡ query_resources resources fuel t (rows ++ rows_of p)
unfolding query_resources
more_page resources fuel token p rows none e s n = absurd n
more_page resources fuel token p rows (some []) e s n = absurd n
more_page resources fuel token p rows (some (c ∷ cs)) e s n =
    rw (e, query_resources) (rw (s, query_resources) refl)

-- Where the service serves these pages, the loop ends after as many requests as there are pages and
-- returns their rows, in order, after those that it had.
pub query_resources_all :
    (resources : Option Text → Option Page) (token : Option Text) (p : Page) (ps : List Page)
    (rows : List AzureRow)
    → Serves resources token p ps
    → query_resources resources (suc (length ps)) token rows ≡ done (rows ++ all_rows p ps)
query_resources_all resources token p [] rows (e, n) =
    last_page resources 0 token p rows p.skip_token e refl n
query_resources_all resources token p (q ∷ ps) rows (e, n, s) =
    more_page resources (suc (length ps)) token p rows p.skip_token e refl n
    ∙ query_resources_all resources p.skip_token q ps (rows ++ rows_of p) s
    ∙ ap done (append_assoc rows (rows_of p) (all_rows q ps))
