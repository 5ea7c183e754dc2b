-- ===== src/Envelope.antt =====
-- The envelopes of packages/core/src/protocol.ts, after they were decoded, and the class PageStore
-- of packages/core/src/store.ts, which keeps the page that is shown.
use native.Mathlib.Decide.{ℕ_discrete}
use flux_fast.Shared.{ℕ, String, Option, some, List, [], ◌++◌, add, remove, get_or}
use flux_fast.Shared.JsMap.{Map}
use flux_fast.Value.{Fields, end}
use flux_fast.Mutation.{ResourcePatch}
use flux_fast.Cache.{PageDescriptor}
use flux_fast.Store.State.{ResourceErrorDetail}
use flux_fast.Store.Changes.{ResourceWireRecord}

-- An envelope is an object: `ref` is the reference by which it is rejected as a prefetch.
pub record PageEnvelope : Type 0 where
  pub ref : ℕ
  pub page : PageDescriptor
  pub resources : Map String ResourceWireRecord
  pub resource_keys : Option (List String)
  pub deferred : Option (List String)
  pub live : Option (List String)
  pub resource_errors : Option (Map String ResourceErrorDetail)

pub record MutationPayload : Type 0 where
  pub patches : Option (Map String (List ResourcePatch))
  pub invalidate : Option (List String)
  pub redirect : Option String
  pub external_redirect : Option String

pub record PageState : Type 0 where
  pub component : String
  pub url : String
  pub meta : Fields

-- `calls` lists the subscribers that were called.
pub record PageStore : Type 0 where
  pub state : PageState
  pub subscribers : List ℕ
  pub calls : List ℕ

abbrev pub page_state : PageDescriptor → PageState
page_state page = record { component = page.component; url = page.url; meta = get_or page.meta end }

abbrev pub no_page : PageDescriptor
no_page = record { component = ""; url = ""; meta = some end }

abbrev pub new_page_store : Option PageDescriptor → PageStore
new_page_store initial_page = record {
  state = page_state (get_or initial_page no_page);
  subscribers = [];
  calls = [];
}

abbrev pub subscribe_page : ℕ → PageStore → PageStore
subscribe_page callback s = record s { subscribers = add ℕ_discrete callback s.subscribers }

abbrev pub unsubscribe_page : ℕ → PageStore → PageStore
unsubscribe_page callback s = record s { subscribers = remove ℕ_discrete callback s.subscribers }

abbrev pub set_page_state : PageDescriptor → PageStore → PageStore
set_page_state page s = record s { state = page_state page; calls = s.calls ++ s.subscribers }

abbrev pub clear_page_state : PageStore → PageStore
clear_page_state s = set_page_state no_page s
