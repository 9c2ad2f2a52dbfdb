-- ===== src/ZmqFeedHandler/ListSocket.antt =====
-- A SUB socket that is the list of its topics.
use market_data_disseminatio.Base.Tests.{
  ℕ, refl, false, Bool, ◌&&◌, ◌||◌, List, [], ◌∷◌, if◌then◌else◌,
}
use market_data_disseminatio.ZmqFeedHandler.{is_prefix, Socket}

-- A socket that keeps its subscriptions in a list.
abbrev pub listed : List (List ℕ) → List ℕ → Bool
listed [] t = false
listed (p ∷ ps) t = is_prefix p t || listed ps t

abbrev pub without : List ℕ → List (List ℕ) → List (List ℕ)
without p [] = []
without p (q ∷ ps) =
    let rest = without p ps in if is_prefix p q && is_prefix q p then ps else q ∷ rest

abbrev pub list_socket : Socket
list_socket = record {
  State = List (List ℕ);
  subscribe = λ p s. p ∷ s;
  unsubscribe = without;
  takes = listed;
  takes_subscribe = λ p t s. refl;
}
