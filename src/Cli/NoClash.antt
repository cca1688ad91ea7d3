-- ===== src/Cli/NoClash.antt =====
-- cli/src/main.rs over client/src/fake.rs: what is signed over a history of runs of the program.
use adjourn.Prelude.{List}
use adjourn.Types.{Bytes, Body}
use adjourn.Types.Crypto.{Crypto, IsWideHash}
use adjourn.Project.Board.{Chess}
use adjourn.Contract.Cbor.{Codec}
use adjourn.Policy.Guard.{NoClash}
use adjourn.Delegate.Secrets.{SecretCodec}
use adjourn.Delegate.Laws.{IsSecretCodec}
use adjourn.Delegate.Guards.{IsKeyed}
use adjourn.Client.Invite.{Invite, GameOffer, Serde, Base58}
use adjourn.Client.Node.{Freenet}
use adjourn.Client.Fake.{FakeNode, Host, world_backed_store}
use adjourn.Client.Fake.Audit.{audit, audited}
use adjourn.Client.Fake.Audit.Guarded.{audited-KeepsCalls, audit-IsGuarded}
use adjourn.Cli.{Env, Command, run_all}
use adjourn.Cli.Keeps.{run_all-Keeps}

module _ ⦃c : Crypto⦄ ⦃chess : Chess⦄ ⦃codec : Codec⦄ ⦃secrets : SecretCodec⦄ ⦃host : Host⦄
    ⦃freenet : Freenet⦄ ⦃base : Base58⦄ ⦃invites : Serde Invite⦄ ⦃offers : Serde GameOffer⦄ where
  -- The bodies of one game that the delegate of a node signs over a history of runs.
  abbrev pub signed_over : Bytes → List (Env × Command) → FakeNode → List Body
  signed_over id runs n = (run_all ⦃client = audited id⦄ runs (audit n)).signed

  module _ (codec_laws : IsSecretCodec secrets) (wide : IsWideHash) where
    -- Over any history of runs of the program against one node in memory, whatever the commands,
    -- their arguments and their failures, and whatever the world holds, the moves of one game that
    -- the node's delegate signs have, at each ply, one body hash. At the start each record is
    -- stored under the id of its own game; records are read back as they were written, and hashes
    -- have 32 bytes.
    pub run_all-NoClash :
        (id : Bytes) (runs : List (Env × Command)) (n : FakeNode)
        → IsKeyed n.store
        → NoClash (signed_over id runs n)
    run_all-NoClash id runs n keyed =
        (run_all-Keeps ⦃client = audited id⦄ (audited-KeepsCalls codec_laws wide id) runs (audit n)
          (audit-IsGuarded codec_laws wide id n keyed)).agree
