-- ===== src/RunLoop/Sound/Batch.antt =====
-- The conversation through a batch of run_loop.go, whether it runs to its end or is stopped.
use agentic_loop.Prelude.{
  List, ℕ, ◌∷◌, length, ◌≡◌, Text, Option, ap, [], none, some, arith, refl, true,
}
use agentic_loop.Message.{Message, ToolCall, ToolDecl}
use agentic_loop.Errors.{Error}
use agentic_loop.Tools.{ToolResult}
use agentic_loop.Session.{Session, CallNode, tool_calls, tool_result}
use agentic_loop.Session.Appended.{call_below}
use agentic_loop.Session.Held.{streamed_below, Held, Held-mono, stream-Held, result-Held, omit-Held}
use agentic_loop.Node.{drafts}
use agentic_loop.Elapsed.{mark_call, elapsed_messages}
use agentic_loop.RunLoop.{Config, Loop, Request, Streamed, Status}
use agentic_loop.RunLoop.Calling.{run_model_call, begun, made_call}
use agentic_loop.RunLoop.Batch.{
  Item, Verdict, items, aborted, Started, hook_failed, broke, went, started_by, dispatch, start,
  add_item, zip_calls, stored_by, seen_by, record_results, Collapsed, collapsed, keep_first,
}
use agentic_loop.RunLoop.ToolTurn.{stop_turn}
use agentic_loop.RunLoop.Sound.{Kept, KeptStep}

abbrev pub item_nodes : List Item → List CallNode
item_nodes [] = []
item_nodes (it ∷ its) = it.node ∷ item_nodes its

abbrev pub pair_nodes : List (CallNode × ToolCall) → List CallNode
pair_nodes [] = []
pair_nodes ((n, c) ∷ ps) = n ∷ pair_nodes ps

pub pair_nodes-zip_calls :
    (ns : List CallNode) (cs : List ToolCall)
    → length ns ≡ length cs
    → pair_nodes (zip_calls ns cs) ≡ ns
pair_nodes-zip_calls [] [] h = refl
pair_nodes-zip_calls [] (c ∷ cs) h = refl
pair_nodes-zip_calls (n ∷ ns) [] h = absurd (omega (arith, h))
pair_nodes-zip_calls (n ∷ ns) (c ∷ cs) h =
    ap (λ l. n ∷ l) (pair_nodes-zip_calls ns cs (omega (arith, h)))

-- The items of a finished dispatch are the calls of the batch, in order.
abbrev pub AreItemsOf : List CallNode → Verdict → Type 0
AreItemsOf ns (items its) = item_nodes its ≡ ns
AreItemsOf ns (aborted e) = Unit

module _ {W : Type 0} (cfg : Config W) where
  add_item_nodes :
      (it : Item) (ns : List CallNode) (p : Verdict × W)
      → AreItemsOf ns p.0
      → AreItemsOf (it.node ∷ ns) (add_item cfg it p).0
  add_item_nodes it ns (items its, w) h = ap (λ l. it.node ∷ l) h
  add_item_nodes it ns (aborted e, w) h = tt

  pub dispatch_nodes :
      (refused : List (Text × ToolResult)) (ps : List (CallNode × ToolCall)) (first : Option Error)
      (w : W)
      → AreItemsOf (pair_nodes ps) (dispatch cfg refused ps first w).0
  unfolding dispatch
  dispatch_nodes refused [] none w = refl
  dispatch_nodes refused [] (some e) w = tt
  dispatch_nodes refused ((n, c) ∷ ps) first w =
      go (start cfg refused c w) (λ e v. dispatch_nodes refused ps e v)
    where
      go :
          (st : Started × W)
          → ((e : Option Error) (v : W)
              → AreItemsOf (pair_nodes ps) (dispatch cfg refused ps e v).0)
          → AreItemsOf
              (n ∷ pair_nodes ps)
              (started_by cfg (λ e v. dispatch cfg refused ps e v) n c first st).0
      go (hook_failed e, v) ih = tt
      go (broke e, v) ih = tt
      go (went ask res err, v) ih = add_item_nodes _ (pair_nodes ps) _ (ih (keep_first first err) v)

module _ {W : Type 0} (cfg : Config W) (start_ : Session) (o : Option ℕ) where
  -- Where an error stopped the results, the calls of the batch may still be open.
  abbrev pub Recorded : Option ℕ → List CallNode → Option Error × Loop W → Type 0
  Recorded rec_ ns (some e, r) = Kept start_ o rec_ ns r
  Recorded rec_ ns (none, r) = Kept start_ o rec_ [] r

  Recorded-cons :
      (rec_ : Option ℕ) (n : CallNode) (ns : List CallNode) (p : Option Error × Loop W)
      → Recorded rec_ ns p
      → Recorded rec_ (n ∷ ns) p
  Recorded-cons rec_ (k, i) ns (some e, r) h =
      (Held-mono start_ rec_ ns ((k, i) ∷ ns) r.session (λ j g. ground arith) h.0, h.1)
  Recorded-cons rec_ n ns (none, r) h = h

  pub record_results-Recorded :
      (rec_ : Option ℕ) (id : Text) (its : List Item) (r : Loop W)
      → Kept start_ o rec_ (item_nodes its) r
      → Recorded rec_ (item_nodes its) (record_results cfg id its r)
  unfolding record_results
  record_results-Recorded rec_ id [] r h = h
  record_results-Recorded rec_ id (it ∷ its) r h =
      go (collapsed cfg it r.deduper) _ (λ l g. record_results-Recorded rec_ id its l g)
    where
      stored :
          (l : Loop W) (st : Option Error × W)
          → ((l' : Loop W)
              → Kept start_ o rec_ (item_nodes its) l'
              → Recorded rec_ (item_nodes its) (record_results cfg id its l'))
          → Kept start_ o rec_ (item_nodes its) l
          → Recorded rec_
              (it.node ∷ item_nodes its)
              (stored_by cfg (λ l'. record_results cfg id its l') l st)
      stored l (some e, w) ih g =
          Recorded-cons rec_ it.node (item_nodes its) (some e, record l { world = w }) g
      stored l (none, w) ih g =
          Recorded-cons rec_ it.node (item_nodes its) _ (ih (record l { world = w }) g)

      go :
          (c : Collapsed cfg) (seen : Option Error × W)
          → ((l' : Loop W)
              → Kept start_ o rec_ (item_nodes its) l'
              → Recorded rec_ (item_nodes its) (record_results cfg id its l'))
          → Recorded rec_
              (it.node ∷ item_nodes its)
              (seen_by cfg (λ l'. record_results cfg id its l') id it c seen r)
      go c (some e, w) ih = h
      go c (none, w) ih =
          stored
            (record r {
              deduper = c.deduper;
              session = tool_result it.node c.content it.result.is_error [] r.session;
            })
            _ ih
            (
              result-Held start_ rec_ it.node (item_nodes its) c.content it.result.is_error
                  r.session h.0,
              h.1,
            )

  -- A run that ends in the middle of a turn has answered the turn's calls.
  pub stop_turn-Kept :
      (turn : ℕ) (rec_ : Option ℕ) (calls : List CallNode) (reason id : Text) (m : Message)
      (status : Status) (e : Option Error) (r : Loop W)
      → Kept start_ o rec_ calls r
      → KeptStep start_ o turn (stop_turn cfg calls reason id m status e r)
  unfolding stop_turn
  stop_turn-Kept turn rec_ calls reason id m status e r k =
      let h : Held start_ rec_ [] _ = omit-Held start_ rec_ calls reason r.session k.0 in
      (h.0, h.1, refl)

  begun-Kept :
      (turn : ℕ) (id : Text) (r : Loop W) (got : (Request × Option Error) × W)
      → Kept start_ o none [] r
      → Kept start_ o
          (begun cfg turn id r got).0.call
          (tool_calls (begun cfg turn id r got).0.nodes)
          (begun cfg turn id r got).1
  begun-Kept turn id r ((req, none), w) k = made (cfg.host.stream turn id req w)
    where
      made :
          (st : Streamed × W)
          → Kept start_ o
              (made_call cfg turn id r st).0.call
              (tool_calls (made_call cfg turn id r st).0.nodes)
              (made_call cfg turn id r st).1
      made (st, v) = (stream-Held start_ (drafts id [] st.bodies) r.session k.0, k.1)
  begun-Kept turn id r ((req, some e), w) k = unfold tool_calls in k

  pub call-Kept :
      (turn : ℕ) (msgs : List Message) (tools : List ToolDecl) (id : Text) (r : Loop W)
      → Kept start_ o none [] r
      → Kept start_ o
          (run_model_call cfg turn msgs tools id r).0.call
          (tool_calls (run_model_call cfg turn msgs tools id r).0.nodes)
          (run_model_call cfg turn msgs tools id r).1
  unfolding run_model_call
  call-Kept turn msgs tools id r k =
      let marked = mark_call cfg.clock (cfg.host.now r.world) r.tracker in
      begun-Kept turn id (record r { tracker = marked.1 })
        (cfg.host.turn_begin turn
          (record { messages = elapsed_messages msgs marked.0; tools = tools }) r.world)
        k

  -- A model call keeps the record of an earlier one.
  pub call_below_still :
      (turn : ℕ) (msgs : List Message) (tools : List ToolDecl) (id : Text) (rec_ : Option ℕ)
      (r : Loop W)
      → call_below r.session.next_call rec_ ≡ true
      → call_below (run_model_call cfg turn msgs tools id r).1.session.next_call rec_ ≡ true
  unfolding run_model_call
  call_below_still turn msgs tools id rec_ r b =
      let marked = mark_call cfg.clock (cfg.host.now r.world) r.tracker in
      go (
        cfg.host.turn_begin turn
          (record { messages = elapsed_messages msgs marked.0; tools = tools }) r.world)
    where
      l : Loop W
      l = record r { tracker = (mark_call cfg.clock (cfg.host.now r.world) r.tracker).1 }

      made :
          (st : Streamed × W)
          → call_below (made_call cfg turn id l st).1.session.next_call rec_ ≡ true
      made (st, v) = streamed_below (drafts id [] st.bodies) rec_ r.session b

      go :
          (got : (Request × Option Error) × W)
          → call_below (begun cfg turn id l got).1.session.next_call rec_ ≡ true
      go ((req, none), w) = made (cfg.host.stream turn id req w)
      go ((req, some e), w) = b
