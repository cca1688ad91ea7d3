-- ===== src/Delegate/Visible.antt =====
-- delegates/adjourn-delegate/src/lib.rs: the summaries of `handle_list_games`.
use adjourn.Prelude.{
  ◌≡◌, refl, List, [], ◌∷◌, Option, none, some, arith, Bool-cases, Option-cases, inl, inr,
}
use adjourn.Types.{Bytes}
use adjourn.Types.Crypto.{Crypto}
use adjourn.Policy.{opt_eq}
use adjourn.Policy.Guard.{All}
use adjourn.Policy.Bind.{opt_eq→eq}
use adjourn.Delegate.{bound_game, summary_of, list_from, handle_list_games}
use adjourn.Delegate.Api.{Response, GameSummary}
use adjourn.Delegate.Secrets.{
  SecretStore, SecretCodec, load_owner, load_seed, load_quality, list_labels,
}
use adjourn.Policy.{GameRecord}

module _ ⦃c : Crypto⦄ ⦃secrets : SecretCodec⦄ {S : Type 0} ⦃store : SecretStore S⦄ where
  -- A summary of a label that the caller owns and whose key is held.
  pub record Mine (s : S) (origin : Option Bytes) (g : GameSummary) : Type 0 where
    pub owned : load_owner s g.label ≡ origin
    pub seed : Bytes
    pub held : load_seed s g.label ≡ some seed
    pub key : g.public_key ≡ c.public_key seed

  summary-Mine :
      (s : S) (origin : Option Bytes) (label seed : Bytes)
      → load_owner s label ≡ origin
      → load_seed s label ≡ some seed
      → Mine s origin
          (summary_of label (c.public_key seed) (load_quality s label) (bound_game s label))
  summary-Mine s origin label seed e f = mine (bound_game s label)
    where
      mine :
          (o : Option GameRecord)
          → Mine s origin (summary_of label (c.public_key seed) (load_quality s label) o)
      mine none = record { owned = e; seed = seed; held = f; key = refl }
      mine (some rec) = record { owned = e; seed = seed; held = f; key = refl }

  list_from-Mine :
      (s : S) (origin : Option Bytes) (labels : List Bytes)
      → All (Mine s origin) (list_from s origin labels)
  unfolding list_from
  list_from-Mine s origin [] = tt
  list_from-Mine s origin (label ∷ labels) =
      let ih = list_from-Mine s origin labels in
      elim (Bool-cases (opt_eq (load_owner s label) origin)) [
        | inr e ↦ rw e ih
        | inl e ↦ elim (Option-cases (load_seed s label)) [
          | inl f ↦ rw (e, f) ih
          | inr (seed, f) ↦ rw (e, f) (summary-Mine s origin label seed (opt_eq→eq _ _ e) f, ih)
        ]
      ]

  -- Each summary that a listing shows is of a label whose recorded owner is the caller, and has the
  -- public half of the key that is held for the label.
  pub handle_list_games-Mine :
      (s : S) (origin : Option Bytes) (shown : List GameSummary)
      → (handle_list_games s origin).1 ≡ Response.games shown
      → All (Mine s origin) shown
  unfolding handle_list_games
  handle_list_games-Mine s origin shown e =
      let q : list_from s origin (list_labels s) ≡ shown = ground arith in
      rw (← q) (list_from-Mine s origin (list_labels s))
