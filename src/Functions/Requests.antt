-- ===== src/Functions/Requests.antt =====
-- How a request of a typed function is answered, for typedhandler.go.
use allino.Base.{
  ◌≡◌, refl, ap, sym, subst, Bool, true, false, List, [], ◌∷◌, ◌++◌, Option, none, some, ◌⊎◌, inl,
  inr,
}
use allino.Functions.{
  RequestHandler, run_request_handlers, Replies, respond, Handled, reply, after_handlers, handle,
}

module _ {E : Type 0} where
  -- The handlers of requests in their order: that of the options, where there is one, and those of
  -- the extensions.
  abbrev pub in_order :
      Option (RequestHandler E) → List (RequestHandler E) → List (RequestHandler E)
  in_order none exts = exts
  in_order (some h) exts = h ∷ exts

  -- All of them let the request pass.
  abbrev pub AllPass : List (RequestHandler E) → Type 0
  AllPass [] = Unit
  AllPass ((consumed, err) ∷ hs) = (consumed ≡ false) × (err ≡ none) × AllPass hs

  -- A handler stops a request where it consumes it or fails.
  abbrev pub Stops : RequestHandler E → Type 0
  Stops (consumed, none) = consumed ≡ true
  Stops (consumed, some e) = Unit

  run-stopped :
      (exts : List (RequestHandler E)) (h : RequestHandler E)
      → Stops h
      → run_request_handlers exts h ≡ h
  unfolding run_request_handlers
  run-stopped [] h stops = refl
  run-stopped (g ∷ exts) (consumed, some e) stops = run-stopped exts (consumed, some e) stops
  run-stopped (g ∷ exts) (true, none) stops = run-stopped exts (true, none) stops
  run-stopped (g ∷ exts) (false, none) stops = cc

  -- Every request passes all handlers, or the first that stops it decides.
  run-decided :
      (exts : List (RequestHandler E)) (h : RequestHandler E)
      → (AllPass (h ∷ exts) × (run_request_handlers exts h ≡ (false, none)))
        ⊎ ((before : List (RequestHandler E)) × (g : RequestHandler E) × (after : List
              (RequestHandler E))
            × (h ∷ exts ≡ before ++ g ∷ after)
            × AllPass before
            × Stops g
            × (run_request_handlers exts h ≡ g))
  unfolding run_request_handlers
  run-decided [] (true, none) = inr ([], (true, none), [], refl, tt, refl, refl)
  run-decided [] (false, none) = inl ((refl, refl, tt), refl)
  run-decided [] (consumed, some e) = inr ([], (consumed, some e), [], refl, tt, tt, refl)
  run-decided (g ∷ exts) (true, none) =
      inr ([], (true, none), g ∷ exts, refl, tt, refl, run-stopped exts (true, none) refl)
  run-decided (g ∷ exts) (consumed, some e) =
      inr ([], (consumed, some e), g ∷ exts, refl, tt, tt, run-stopped exts (consumed, some e) tt)
  run-decided (g ∷ exts) (false, none) = elim (run-decided exts g) [
    | inl (all, run) ↦ inl ((refl, refl, all), run)
    | inr (before, f, after, split, all, stops, run) ↦ inr (
      (false, none) ∷ before,
      f,
      after,
      ap (◌∷◌ (false, none)) split,
      (refl, refl, all),
      stops,
      run,
    )
  ]

module _ {U E : Type 0} (zero_output : U) (on_error : E → Replies) (on_response : U → Replies) where
  -- The reply to a result: that of the handlers of errors where there is an error, else that of the
  -- handlers of responses.
  abbrev pub Replied : Handled U E → Bool → U × Option E → Type 0
  Replied r ran (output, some e) =
      (r.ran ≡ ran) × (r.result ≡ (output, some e)) × (r.responder ≡ respond (on_error e))
  Replied r ran (output, none) =
      (r.ran ≡ ran) × (r.result ≡ (output, none)) × (r.responder ≡ respond (on_response output))

  reply-Replied :
      (ran : Bool) (result : U × Option E)
      → Replied (reply zero_output on_error on_response ran result) ran result
  unfolding reply
  reply-Replied ran (output, some e) = (refl, refl, refl)
  reply-Replied ran (output, none) = (refl, refl, refl)

  stopped-Replied :
      (g : RequestHandler E) (called : U × Option E)
      → Stops g
      → Replied (after_handlers zero_output on_error on_response g called) false (zero_output, g.1)
  unfolding after_handlers
  stopped-Replied (consumed, some e) called stops = reply-Replied false (zero_output, some e)
  stopped-Replied (true, none) called stops = reply-Replied false (zero_output, none)
  stopped-Replied (false, none) called stops = cc

  on_stopped :
      (x g : RequestHandler E) (called : U × Option E)
      → x ≡ g
      → Stops g
      → Replied (after_handlers zero_output on_error on_response x called) false (zero_output, g.1)
  on_stopped x g called e stops =
      subst
        (λ y.
          Replied (after_handlers zero_output on_error on_response y called) false
            (zero_output, g.1))
        (sym e) (stopped-Replied g called stops)

  on_passed :
      (x : RequestHandler E) (called : U × Option E)
      → x ≡ (false, none)
      → Replied (after_handlers zero_output on_error on_response x called) true called
  unfolding after_handlers
  on_passed x called e =
      subst (λ y. Replied (after_handlers zero_output on_error on_response y called) true called)
        (sym e) (reply-Replied true called)

  -- A request whose parameters are read is answered so: where every handler of requests, that
  -- of the options first, lets it pass, the function is called and its result is replied; else
  -- the function is not called, and the reply is the error of the first handler that fails or
  -- consumes the request, or the zero output where it only consumes it; an error goes to the
  -- handlers of errors and an output to those of responses.
  pub handle-Replied :
      (own : Option (RequestHandler E)) (exts : List (RequestHandler E)) (called : U × Option E)
      → (AllPass (in_order own exts)
          × Replied (handle zero_output on_error on_response none own exts called) true called)
        ⊎ ((before : List (RequestHandler E)) × (g : RequestHandler E) × (after : List
              (RequestHandler E))
            × (in_order own exts ≡ before ++ g ∷ after)
            × AllPass before
            × Stops g
            × Replied
                (handle zero_output on_error on_response none own exts called)
                false
                (zero_output, g.1))
  unfolding handle run_request_handlers
  handle-Replied (some h) exts called = elim (run-decided exts h) [
    | inl (all, run) ↦ inl (all, on_passed (run_request_handlers exts h) called run)
    | inr (before, g, after, split, all, stops, run) ↦ inr (
      before,
      g,
      after,
      split,
      all,
      stops,
      on_stopped (run_request_handlers exts h) g called run stops,
    )
  ]
  handle-Replied none [] called = inl (tt, on_passed (false, none) called refl)
  handle-Replied none (h ∷ exts) called = elim (run-decided exts h) [
    | inl (all, run) ↦ inl (all, on_passed (run_request_handlers exts h) called run)
    | inr (before, g, after, split, all, stops, run) ↦ inr (
      before,
      g,
      after,
      split,
      all,
      stops,
      on_stopped (run_request_handlers exts h) g called run stops,
    )
  ]
