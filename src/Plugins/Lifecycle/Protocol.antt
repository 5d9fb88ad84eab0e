-- ===== src/Plugins/Lifecycle/Protocol.antt =====
-- What a plugin sees of its lifecycle, whatever calls its manager gets.
use mellivor_kernel.Prelude.{◌≡◌, ap, ◌∙◌, refl, List, [], ◌∷◌, String, arith}
use mellivor_kernel.Python.{Result, returned, raised}
use mellivor_kernel.Plugins.Lifecycle.{
  PluginLifecycle, PluginLifecycleState, registered, initialized, running, stopped, disposed,
  failed, Method, initialize, start, stop, dispose, manage, run, target, perform,
}

-- Calls of the manager, each with the answer that the plugin gives if it is called.
unfoldable pub perform_all : List (Method × Result Unit) → PluginLifecycle → PluginLifecycle
perform_all [] l = l
perform_all ((m, outcome) ∷ ms) l = perform_all ms (perform m outcome l).1

-- The order in which a plugin's methods are called (the newest first): `initialize` before every
-- other call, so once at most; `start` next to `initialize` or `stop`; `stop` next to `start`; and
-- `dispose` at any place.
abbrev pub InOrder : List Method → Type 0
InOrder [] = Unit
InOrder (initialize ∷ earlier) = earlier ≡ []
InOrder (start ∷ initialize ∷ earlier) = InOrder (initialize ∷ earlier)
InOrder (start ∷ stop ∷ earlier) = InOrder (stop ∷ earlier)
InOrder (start ∷ _) = ⊥
InOrder (stop ∷ start ∷ earlier) = InOrder (start ∷ earlier)
InOrder (stop ∷ _) = ⊥
InOrder (dispose ∷ earlier) = InOrder earlier

-- What the state tells of the last call.
abbrev pub Agrees : PluginLifecycleState → List Method → Type 0
Agrees registered calls = calls ≡ []
Agrees initialized (initialize ∷ _) = Unit
Agrees running (start ∷ _) = Unit
Agrees stopped (stop ∷ _) = Unit
Agrees disposed (dispose ∷ _) = Unit
Agrees failed _ = Unit
Agrees _ _ = ⊥

pub record Follows (l : PluginLifecycle) : Type 0 where
  pub order : InOrder l.calls
  pub last : Agrees l.state l.calls

-- A call that is made, by what it answers.
called-Follows :
    (m : Method) (outcome : Result Unit) (l : PluginLifecycle)
    → InOrder (m ∷ l.calls)
    → Follows (run m outcome l).1
unfolding run target
called-Follows initialize (raised e) l order = record { order = order; last = tt }
called-Follows initialize (returned _) l order = record { order = order; last = tt }
called-Follows start (raised e) l order = record { order = order; last = tt }
called-Follows start (returned _) l order = record { order = order; last = tt }
called-Follows stop (raised e) l order = record { order = order; last = tt }
called-Follows stop (returned _) l order = record { order = order; last = tt }
called-Follows dispose (raised e) l order = record { order = order; last = tt }
called-Follows dispose (returned _) l order = record { order = order; last = tt }

pub perform-Follows :
    (m : Method) (outcome : Result Unit) (id : String) (s : PluginLifecycleState)
    (calls : List Method)
    → InOrder calls
    → Agrees s calls
    → Follows (perform m outcome (record { plugin_id = id; state = s; calls = calls })).1
unfolding perform
perform-Follows initialize outcome id registered calls order last =
    called-Follows initialize outcome _ last
perform-Follows initialize outcome id initialized calls order last = record {
  order = order;
  last = last;
}
perform-Follows initialize outcome id running calls order last = record {
  order = order;
  last = last;
}
perform-Follows initialize outcome id stopped calls order last = record {
  order = order;
  last = last;
}
perform-Follows initialize outcome id disposed calls order last = record {
  order = order;
  last = last;
}
perform-Follows initialize outcome id failed calls order last = record {
  order = order;
  last = last;
}
perform-Follows start outcome id registered calls order last = record { order = order; last = last }
perform-Follows start outcome id initialized (initialize ∷ calls) order last =
    called-Follows start outcome _ order
perform-Follows start outcome id initialized [] order last = elim last [ ]
perform-Follows start outcome id initialized (start ∷ calls) order last = elim last [ ]
perform-Follows start outcome id initialized (stop ∷ calls) order last = elim last [ ]
perform-Follows start outcome id initialized (dispose ∷ calls) order last = elim last [ ]
perform-Follows start outcome id running calls order last = record { order = order; last = last }
perform-Follows start outcome id stopped (stop ∷ calls) order last =
    called-Follows start outcome _ order
perform-Follows start outcome id stopped [] order last = elim last [ ]
perform-Follows start outcome id stopped (initialize ∷ calls) order last = elim last [ ]
perform-Follows start outcome id stopped (start ∷ calls) order last = elim last [ ]
perform-Follows start outcome id stopped (dispose ∷ calls) order last = elim last [ ]
perform-Follows start outcome id disposed calls order last = record { order = order; last = last }
perform-Follows start outcome id failed calls order last = record { order = order; last = last }
perform-Follows stop outcome id registered calls order last = record { order = order; last = last }
perform-Follows stop outcome id initialized calls order last = record { order = order; last = last }
perform-Follows stop outcome id running (start ∷ calls) order last =
    called-Follows stop outcome _ order
perform-Follows stop outcome id running [] order last = elim last [ ]
perform-Follows stop outcome id running (initialize ∷ calls) order last = elim last [ ]
perform-Follows stop outcome id running (stop ∷ calls) order last = elim last [ ]
perform-Follows stop outcome id running (dispose ∷ calls) order last = elim last [ ]
perform-Follows stop outcome id stopped calls order last = record { order = order; last = last }
perform-Follows stop outcome id disposed calls order last = record { order = order; last = last }
perform-Follows stop outcome id failed calls order last = record { order = order; last = last }
perform-Follows dispose outcome id registered calls order last =
    called-Follows dispose outcome _ order
perform-Follows dispose outcome id initialized calls order last =
    called-Follows dispose outcome _ order
perform-Follows dispose outcome id running calls order last = record { order = order; last = last }
perform-Follows dispose outcome id stopped calls order last = called-Follows dispose outcome _ order
perform-Follows dispose outcome id disposed calls order last = record { order = order; last = last }
perform-Follows dispose outcome id failed calls order last = called-Follows dispose outcome _ order

perform_all-Follows :
    (ms : List (Method × Result Unit)) (l : PluginLifecycle)
    → Follows l
    → Follows (perform_all ms l)
unfolding perform_all
perform_all-Follows [] l h = h
perform_all-Follows ((m, outcome) ∷ ms) l h =
    perform_all-Follows ms _ (perform-Follows m outcome l.plugin_id l.state l.calls h.order h.last)

-- Whatever calls the manager of a plugin gets, and whatever the plugin answers, the plugin's own
-- methods are called in order: `initialize` once at most and before all others, `start` next behind
-- `initialize` or `stop`, and `stop` next behind `start`.
pub perform_all-InOrder :
    (id : String) (ms : List (Method × Result Unit)) → InOrder (perform_all ms (manage id)).calls
perform_all-InOrder id ms =
    (perform_all-Follows ms (manage id) (record { order = tt; last = refl })).order

perform-disposed :
    (m : Method) (outcome : Result Unit) (l : PluginLifecycle)
    → l.state ≡ disposed
    → (perform m outcome l).1 ≡ l
unfolding perform
perform-disposed m outcome l h = ground arith

-- A disposed plugin stays so, and none of its methods is called again.
pub perform_all-disposed :
    (ms : List (Method × Result Unit)) (l : PluginLifecycle)
    → l.state ≡ disposed
    → perform_all ms l ≡ l
unfolding perform_all
perform_all-disposed [] l h = refl
perform_all-disposed ((m, outcome) ∷ ms) l h =
    ap (perform_all ms) (perform-disposed m outcome l h) ∙ perform_all-disposed ms l h
