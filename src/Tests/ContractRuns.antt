-- ===== src/Tests/ContractRuns.antt =====
-- The theorems on the contract, at the games of the examples.
use adjourn.Prelude.{◌≡◌, refl, ap, List, [], ◌∷◌, true, if◌then◌else◌}
use adjourn.Types.{Bytes, Record}
use adjourn.Prelude.Lists.{all}
use adjourn.Types.Crypto.{verify}
use adjourn.State.{GameState, merge, all_valid, apply_delta}
use adjourn.State.Merge.{IsValid}
use adjourn.Contract.{
  ok, or_deser, encode_delta, UpdateData, ValidateResult, decode_params, encode_state,
  validate_state, update_state, summarize_state, get_state_delta,
}
use adjourn.Contract.Update.{
  update_state-IsValid, validate_state-decode_state, decode_state-encode_state,
}
use adjourn.Contract.Sync.{sync_round, update_state-delta}
use adjourn.Tests.Toy.{toy, game, hash-length, game-IsCollisionFree, game-IsDigestFree}
use adjourn.Tests.Cbor.{framed, framed-IsCodec}
use adjourn.Tests.Games.{opened, cheated, opened-IsValid, cheated-IsValid, second_move, program}

abbrev parameters : Bytes
parameters = framed.write_params game

parameters-decode : decode_params parameters ≡ ok game
parameters-decode = ap or_deser (framed-IsCodec.read_write_params game)

sync_round_example :
    (summary : Bytes) × (delta : Bytes) × (summarize_state parameters (encode_state opened)
      ≡ ok summary)
    × (get_state_delta parameters (encode_state cheated) summary ≡ ok delta)
    × (update_state parameters (encode_state opened) (UpdateData.delta delta ∷ [])
        ≡ ok (encode_state (merge game opened cheated)))
sync_round_example =
    sync_round framed-IsCodec game parameters opened cheated hash-length game-IsCollisionFree
      game-IsDigestFree parameters-decode opened-IsValid cheated-IsValid

validate_state-decode_state_example :
    validate_state parameters (encode_state cheated)
    ≡ ok (if all_valid game cheated then ValidateResult.valid else ValidateResult.invalid)
validate_state-decode_state_example =
    validate_state-decode_state game cheated parameters (encode_state cheated) parameters-decode
      (decode_state-encode_state framed-IsCodec game cheated cheated-IsValid)

abbrev reply : List Record
reply = second_move ∷ []

second_move-verify : all (verify game) reply ≡ true
unfolding program
second_move-verify = refl

abbrev output : Bytes
output = encode_state (apply_delta game opened reply)

update_state-IsValid_example :
    ((next : GameState) × IsValid game next × (output ≡ encode_state next))
    × (validate_state parameters output ≡ ok ValidateResult.valid)
update_state-IsValid_example =
    update_state-IsValid framed-IsCodec game parameters (encode_state opened) output
      (UpdateData.delta (encode_delta reply) ∷ []) parameters-decode
      (update_state-delta framed-IsCodec game parameters opened reply parameters-decode
        opened-IsValid second_move-verify)
