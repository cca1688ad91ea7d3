-- ===== src/Delegate/Laws.antt =====
-- What the delegate relies on of its secret store, and what a write of a game does to the games and
-- the bindings that are read from the store.
use adjourn.Prelude.{
  ◌≡◌, refl, ap, ◌∙◌, Bool, true, false, ◌&&◌, Option, some, if◌then◌else◌, ◌>>=◌, arith,
}
use adjourn.Prelude.Lists.{length}
use adjourn.Prelude.Order.{◌==◌, nat_ord, list_ord}
use adjourn.Types.{Bytes}
use adjourn.Types.Crypto.{Crypto, game_id, IsWideHash}
use adjourn.Policy.{GameRecord, migrate_record}
use adjourn.Delegate.Secrets.{
  SecretStore, SecretCodec, game_secret, bind_secret, load_game, load_bound_game_id, store_game,
  and_then, as_32,
}

-- A write that succeeds sets its own key, one that fails sets nothing.
pub record IsStore {S : Type 0} (store : SecretStore S) : Type 0 where
  pub get_set :
      (s : S) (k v j : Bytes)
      → store.get (store.set s k v).0 j
        ≡ (if (store.set s k v).1 && (j == k) then some v else store.get s j)

-- A record of a game is read back as it was written.
pub record IsSecretCodec (secrets : SecretCodec) : Type 0 where
  pub read_write_record : (r : GameRecord) → secrets.read_record (secrets.write_record r) ≡ some r

-- what `load_game` and `load_bound_game_id` make of the secret that they find
abbrev game_in : ⦃secrets : SecretCodec⦄ → Option Bytes → Option GameRecord
game_in ⦃secrets⦄ o = do b ← o; rec ← secrets.read_record b; migrate_record rec

abbrev bound_in : Option Bytes → Option Bytes
bound_in o = do b ← o; as_32 b

-- A write under another kind of name does not count.
unset {ℓ} : {A : Type ℓ} (x y : A) (b : Bool) → (if b && false then x else y) ≡ y
unset x y true = refl
unset x y false = refl

module _ ⦃c : Crypto⦄ ⦃secrets : SecretCodec⦄ {S : Type 0} ⦃store : SecretStore S⦄ where
  -- Two stores from which the same games and the same bindings are read.
  pub record SameGames (s t : S) : Type 0 where
    pub games : (id : Bytes) → load_game t id ≡ load_game s id
    pub index : (label : Bytes) → load_bound_game_id t label ≡ load_bound_game_id s label

  -- What `store_game` may have done: the record, and after it the binding of its label, or neither.
  pub record Stored (s : S) (r : GameRecord) (out : S × Bool) : Type 0 where
    pub game_written : Bool
    pub index_written : Bool
    pub in_order : index_written ≡ true → game_written ≡ true
    pub success : out.1 ≡ index_written
    pub games :
        (id : Bytes)
        → load_game out.0 id
          ≡ (if game_written && (id == game_id r.params) then some r else load_game s id)
    pub index :
        (label : Bytes)
        → load_bound_game_id out.0 label ≡ (
            if index_written && (label == r.label)
            then some (game_id r.params)
            else load_bound_game_id s label)

  module _ (laws : IsStore store) where
    -- A write of a secret that is neither a game nor a binding.
    pub set-SameGames :
        (s : S) (k v : Bytes)
        → ((id : Bytes) → (game_secret id == k) ≡ false)
        → ((label : Bytes) → (bind_secret label == k) ≡ false)
        → SameGames s (store.set s k v).0
    unfolding load_game load_bound_game_id
    set-SameGames s k v no_game no_bind = record {
      games = λ id.
          let got = laws.get_set s k v (game_secret id) in
          let other = no_game id in
          let same : store.get (store.set s k v).0 (game_secret id) ≡ store.get s (game_secret id) =
            ground arith in
          rw same refl;
      index = λ label.
          let got = laws.get_set s k v (bind_secret label) in
          let other = no_bind label in
          let same : store.get (store.set s k v).0 (bind_secret label)
              ≡ store.get s (bind_secret label) =
            ground arith in
          rw same refl;
    }

    module _ (codec_laws : IsSecretCodec secrets) (wide : IsWideHash) where
      game_in-if :
          (b : Bool) (r : GameRecord) (o : Option Bytes)
          → r.format ≡ 3
          → game_in (if b then some (secrets.write_record r) else o)
            ≡ (if b then some r else game_in o)
      unfolding migrate_record
      game_in-if true r o f = let read = codec_laws.read_write_record r in ground arith
      game_in-if false r o f = refl

      bound_in-if :
          (b : Bool) (r : GameRecord) (o : Option Bytes)
          → bound_in (if b then some (game_id r.params) else o)
            ≡ (if b then some (game_id r.params) else bound_in o)
      unfolding game_id
      bound_in-if true r o = let size : length (game_id r.params) ≡ 32 = wide _ in ground arith
      bound_in-if false r o = refl

      set_game :
          (s : S) (r : GameRecord) (id : Bytes)
          → r.format ≡ 3
          → let out = store.set s (game_secret (game_id r.params)) (secrets.write_record r) in
            load_game out.0 id
            ≡ (if out.1 && (id == game_id r.params) then some r else load_game s id)
      unfolding load_game
      set_game s r id f =
          ap game_in (
            laws.get_set s (game_secret (game_id r.params)) (secrets.write_record r)
              (game_secret id))
          ∙ game_in-if _ r (store.get s (game_secret id)) f

      set_index :
          (s : S) (r : GameRecord) (label : Bytes)
          → let out = store.set s (bind_secret r.label) (game_id r.params) in
            load_bound_game_id out.0 label ≡ (
              if out.1 && (label == r.label)
              then some (game_id r.params)
              else load_bound_game_id s label)
      unfolding load_bound_game_id
      set_index s r label =
          ap bound_in (laws.get_set s (bind_secret r.label) (game_id r.params) (bind_secret label))
          ∙ bound_in-if _ r (store.get s (bind_secret label))

      set_game-index :
          (s : S) (r : GameRecord) (label : Bytes)
          → load_bound_game_id
              (store.set s (game_secret (game_id r.params)) (secrets.write_record r)).0
              label
            ≡ load_bound_game_id s label
      unfolding load_bound_game_id
      set_game-index s r label =
          let got =
            laws.get_set s (game_secret (game_id r.params)) (secrets.write_record r)
              (bind_secret label) in
          ap bound_in (
            got
            ∙ unset _ _ (store.set s (game_secret (game_id r.params)) (secrets.write_record r)).1)

      set_index-games :
          (s : S) (r : GameRecord) (id : Bytes)
          → load_game (store.set s (bind_secret r.label) (game_id r.params)).0 id ≡ load_game s id
      unfolding load_game
      set_index-games s r id =
          let got = laws.get_set s (bind_secret r.label) (game_id r.params) (game_secret id) in
          ap game_in (got ∙ unset _ _ (store.set s (bind_secret r.label) (game_id r.params)).1)

      -- `store_game` writes the record, then the binding, and reports success if both are there.
      pub store_game-Stored : (s : S) (r : GameRecord) → r.format ≡ 3 → Stored s r (store_game s r)
      unfolding store_game
      store_game-Stored s r f =
          after (store.set s (game_secret (game_id r.params)) (secrets.write_record r))
            (λ id. set_game s r id f) (λ label. set_game-index s r label)
        where
          after :
              (out : S × Bool)
              → ((id : Bytes)
                  → load_game out.0 id
                    ≡ (if out.1 && (id == game_id r.params) then some r else load_game s id))
              → ((label : Bytes) → load_bound_game_id out.0 label ≡ load_bound_game_id s label)
              → Stored s r
                  (and_then out (λ t. store.set t (bind_secret r.label) (game_id r.params)))
          after (t, false) games index = record {
            game_written = false;
            index_written = false;
            in_order = λ e. e;
            success = refl;
            games = games;
            index = index;
          }
          after (t, true) games index = record {
            game_written = true;
            index_written = (store.set t (bind_secret r.label) (game_id r.params)).1;
            in_order = λ e. refl;
            success = refl;
            games = λ id. set_index-games t r id ∙ games id;
            index = λ label.
                set_index t r label
                ∙ ap
                    (λ o.
                      if (store.set t (bind_secret r.label) (game_id r.params)).1
                        && (label == r.label)
                      then some (game_id r.params)
                      else o)
                    (index label);
          }
