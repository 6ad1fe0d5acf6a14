-- ===== src/Messaging/Pipeline/Laws.antt =====
-- The order in which a pipeline calls its middlewares.
use mathlib.Core.List.{reverse-append, reverse-cons}
use rusi.Prelude.{◌≡◌, refl, ap, ◌∙◌, List, [], ◌∷◌, ◌++◌}
use rusi.Messaging.Pipeline.{wrap, build, use_middleware}

module _ {H : Type 0} where
  wrap-append : (ms ns : List (H → H)) (h : H) → wrap (ms ++ ns) h ≡ wrap ns (wrap ms h)
  unfolding wrap
  wrap-append [] ns h = refl
  wrap-append (m ∷ ms) ns h = wrap-append ms ns (m h)

  build-cons : (m : H → H) (ms : List (H → H)) (h : H) → build (m ∷ ms) h ≡ m (build ms h)
  unfolding build wrap
  build-cons m ms h = simp (reverse-cons, wrap-append)

  -- the middlewares by recursion: the first one is the outermost
  abbrev pub nest : List (H → H) → H → H
  nest [] h = h
  nest (m ∷ ms) h = m (nest ms h)

  -- `Build` nests the middlewares, the first one outermost.
  pub build-eq-nest : (ms : List (H → H)) (h : H) → build ms h ≡ nest ms h
  unfolding build wrap
  build-eq-nest [] h = refl
  build-eq-nest (m ∷ ms) h = build-cons m ms h ∙ ap m (build-eq-nest ms h)

  -- A middleware that is used last is the innermost.
  pub build-use_middleware :
      (m : H → H) (ms : List (H → H)) (h : H) → build (use_middleware m ms) h ≡ build ms (m h)
  unfolding build use_middleware wrap
  build-use_middleware m ms h = rw (reverse-append ms (m ∷ []))
