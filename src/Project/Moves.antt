-- ===== src/Project/Moves.antt =====
-- common/src/project.rs: the records that `make_move` returns.
use adjourn.Prelude.{
  ℕ, Bool, ◌+◌, ◌≡◌, refl, sym, ap, subst, ◌∙◌, true, false, none, some, Option, ◌>>=◌, arith, ◌≤◌,
  ◌<◌, not,
}
use adjourn.Prelude.Lists.{some-inj, length, get_last}
use adjourn.Types.{Bytes, GameParams, Body, Record, Color, color_eq, color_of, ply_of}
use adjourn.Types.Crypto.{Crypto, genesis, game_id, signing_payload, sign, verify}
use adjourn.State.{GameState}
use adjourn.Project.{Status, is_over, head_or, next_ply, when, project, make_move_at, make_move}
use adjourn.Project.Board.{Chess}

-- What ed25519 signs with a key, the key's public half verifies, in 64 bytes.
pub record IsSigning (c : Crypto) : Type 0 where
  pub vk : Bytes → Bytes
  pub is_key : (k : Bytes) → c.verifying_key (c.public_key k) ≡ some (vk k)
  pub sig : Bytes → Bytes → Bytes
  pub is_sig : (k m : Bytes) → c.signature (c.sign_bytes k m) ≡ some (sig k m)
  pub sized : (k m : Bytes) → length (c.sign_bytes k m) ≡ 64
  pub checks : (k m : Bytes) → c.check (vk k) m (sig k m) ≡ true

-- Inversion of a bind that gives a result.
bind-some {ℓ κ} :
    {A : Type ℓ} {B : Type κ} {b : B} (o : Option A) (f : A → Option B)
    → (o >>= f) ≡ some b
    → (a : A) × (o ≡ some a) × (f a ≡ some b)
bind-some none f e = absurd (ground arith)
bind-some (some a) f e = (a, refl, e)

color_eq→eq : (a b : Color) → color_eq a b ≡ true → a ≡ b
color_eq→eq Color.white Color.white e = refl
color_eq→eq Color.white Color.black e = cc
color_eq→eq Color.black Color.white e = cc
color_eq→eq Color.black Color.black e = refl

not_over : (st : Status) → not (is_over st) ≡ true → st.decision ≡ none
not_over st e = ground arith

module _ ⦃c : Crypto⦄ ⦃chess : Chess⦄ where
  -- Signing a body within the cap with a player's key makes a record that verifies.
  pub sign-verify :
      (laws : IsSigning c) (p : GameParams) (key : Bytes) (color : Color) (ply : ℕ)
      (parent uci : Bytes)
      → color_of p (c.public_key key) ≡ some color
      → ply ≤ 4096
      → verify p (sign key p (Body.move ply parent uci)) ≡ true
  unfolding verify sign ply_of
  sign-verify laws p key color ply parent uci e h =
      let message = signing_payload (game_id p) (Body.move ply parent uci) in
      let a = laws.is_key key in
      let b = laws.is_sig key message in
      let d = laws.sized key message in let f = laws.checks key message in ground arith

  -- A verified record of a legal move: of the player to move, at the ply after the game's, in a game
  -- that is not over, in the canonical spelling, on top of the chain.
  pub record Minted (p : GameParams) (uci : Bytes) (st : Status) (pos : chess.Pos)
      (parsed : chess.Uci) (mv : chess.Move) (r : Record) : Type 0 where
    pub open_game : st.decision ≡ none
    pub verified : verify p r ≡ true
    pub mover : color_of p r.signer ≡ some st.turn
    pub at : chess.parse_fen st.fen ≡ some pos
    pub reads : chess.from_ascii uci ≡ some parsed
    pub legal : chess.to_move parsed pos ≡ some mv
    pub says :
        r.body ≡ Body.move (st.ply + 1) (head_or (get_last st.chain) (genesis p)) (chess.uci_of mv)

  when-some : (b : Bool) → when b ≡ some tt → b ≡ true
  when-some true e = refl
  when-some false e = cc

  minted :
      (laws : IsSigning c) (p : GameParams) (key uci : Bytes) (r : Record) (st : Status)
      (color : Color) (pos : chess.Pos) (parsed : chess.Uci) (mv : chess.Move) (ply : ℕ)
      → when (not (is_over st)) ≡ some tt
      → color_of p (c.public_key key) ≡ some color
      → when (color_eq color st.turn) ≡ some tt
      → chess.parse_fen st.fen ≡ some pos
      → chess.from_ascii uci ≡ some parsed
      → chess.to_move parsed pos ≡ some mv
      → next_ply st.ply ≡ some ply
      → sign key p (Body.move ply (head_or (get_last st.chain) (genesis p)) (chess.uci_of mv)) ≡ r
      → Minted p uci st pos parsed mv r
  unfolding sign
  minted laws p key uci r st color pos parsed mv ply live colored turn at read legal counted made =
      let parent = head_or (get_last st.chain) (genesis p) in
      let next : ply ≡ st.ply + 1 = ground arith in
      let cap : ply ≤ 4096 = ground arith in
      let same : color ≡ st.turn = color_eq→eq color st.turn (when-some _ turn) in
      let signer : c.public_key key ≡ r.signer = ap (λ q. q.signer) made in
      record {
        open_game = not_over st (when-some _ live);
        verified =
            subst (λ q. verify p q ≡ true) made
              (sign-verify laws p key color ply parent (chess.uci_of mv) colored cap);
        mover = subst (λ k. color_of p k ≡ some st.turn) signer (colored ∙ ap some same);
        at = at;
        reads = read;
        legal = legal;
        says = sym (ap (λ q. q.body) made) ∙ ap (λ n. Body.move n parent (chess.uci_of mv)) next;
      }

  -- A record that `make_move` returns verifies, and is a legal move in the projected position, by
  -- the player to move, at the ply after the game's, in a game that is not over, in the canonical
  -- spelling, with the last record of the chain as its parent, or genesis. What is signed with a
  -- key verifies against its public half.
  pub make_move-verify :
      (laws : IsSigning c) (state : GameState) (p : GameParams) (key uci : Bytes) (r : Record)
      → make_move state p key uci ≡ some r
      → (st : Status) × (pos : chess.Pos) × (parsed : chess.Uci) × (mv : chess.Move) × (project
            state p
          ≡ some st)
        × Minted p uci st pos parsed mv r
  unfolding make_move make_move_at
  make_move-verify laws state p key uci r e =
      let (st, project_ok, e) = bind-some (project state p) _ e in
      let (_, open_game, e) = bind-some (when (not (is_over st))) _ e in
      let (color, colored, e) = bind-some (color_of p (c.public_key key)) _ e in
      let (_, turn, e) = bind-some (when (color_eq color st.turn)) _ e in
      let (pos, at, e) = bind-some (chess.parse_fen st.fen) _ e in
      let (parsed, read, e) = bind-some (chess.from_ascii uci) _ e in
      let (mv, legal, e) = bind-some (chess.to_move parsed pos) _ e in
      let (ply, counted, e) = bind-some (next_ply st.ply) _ e in
      (
        st,
        pos,
        parsed,
        mv,
        project_ok,
        minted laws p key uci r st color pos parsed mv ply open_game colored turn at read legal
            counted (some-inj e),
      )

  color_eq_self : (x : Color) → color_eq x x ≡ true
  color_eq_self Color.white = refl
  color_eq_self Color.black = refl

  next_ply-some : (ply : ℕ) → ply < 4096 → next_ply ply ≡ some (ply + 1)
  next_ply-some ply h = ground arith

  is_over-none : (st : Status) → st.decision ≡ none → is_over st ≡ false
  is_over-none st e = ground arith

  -- In a game that is not over and has not reached its 4096th ply, for the key of the player to move
  -- and a notation of a legal move in the projected position, `make_move` returns a record, and it
  -- verifies. What is signed with a key verifies against its public half.
  pub make_move-some :
      (laws : IsSigning c) (state : GameState) (p : GameParams) (key uci : Bytes) (st : Status)
      (pos : chess.Pos) (parsed : chess.Uci) (mv : chess.Move)
      → project state p ≡ some st
      → st.decision ≡ none
      → color_of p (c.public_key key) ≡ some st.turn
      → chess.parse_fen st.fen ≡ some pos
      → chess.from_ascii uci ≡ some parsed
      → chess.to_move parsed pos ≡ some mv
      → st.ply < 4096
      → (r : Record) × (make_move state p key uci ≡ some r) × (verify p r ≡ true)
  unfolding make_move make_move_at
  make_move-some laws state p key uci st pos parsed mv projected live colored at read legal cap =
      let parent = head_or (get_last st.chain) (genesis p) in
      (
        sign key p (Body.move (st.ply + 1) parent (chess.uci_of mv)),
        rw
            (
              projected,
              is_over-none st live,
              colored,
              color_eq_self st.turn,
              at,
              read,
              legal,
              next_ply-some st.ply cap,
            )
            refl,
        sign-verify laws p key st.turn (st.ply + 1) parent (chess.uci_of mv) colored (omega arith),
      )
