-- ===== src/Adapters/Answers.antt =====
-- Which line of the app server answers a request (awaitResponse of
-- internal/provider/codex/codex.go).
use ai_limit_notifier.Prelude.{
  ℕ, ◌≡◌, refl, Bool, true, false, List, [], ◌∷◌, ◌++◌, Option, All, if◌then◌else◌,
}
use ai_limit_notifier.Adapters.{
  RpcMessage, refused, timeout, protocol, for_id, answer_of, await_response,
}

module _ {R : Type 0} (n : ℕ) (ended : Bool) where
  -- Lines that do not decode, notifications and answers to other requests are passed over: the
  -- first line for the request is the answer, and the lines behind it stay for the next request.
  pub await_response-first :
      (noise lines : List (Option (RpcMessage R))) (line : Option (RpcMessage R))
      → All (λ l. for_id n l ≡ false) noise
      → for_id n line ≡ true
      → await_response n ended (noise ++ line ∷ lines) ≡ (answer_of line, lines)
  unfolding await_response
  await_response-first [] lines line h e = rw e refl
  await_response-first (l ∷ noise) lines line (h, hs) e =
      rw h (await_response-first noise lines line hs e)

  -- Without such a line the request fails, with the timeout's error if the context has ended.
  pub await_response-none :
      (lines : List (Option (RpcMessage R)))
      → All (λ l. for_id n l ≡ false) lines
      → await_response n ended lines ≡ (refused (if ended then timeout else protocol), [])
  unfolding await_response
  await_response-none [] h = refl
  await_response-none (l ∷ lines) (h, hs) = rw h (await_response-none lines hs)
