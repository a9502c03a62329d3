-- ===== src/Server.antt =====
-- `TcpSession` of `core/src/net/tcp_session.cpp`: one step of the event loop handles one message of one
-- connection to its end. The server runs on a little-endian host. Logging is left out, but for the
-- call of `SessionManager::count` that it makes.
pub mod Sessions
pub mod Offers
pub mod Files
pub mod Dispatch
pub mod Access
pub mod Answered
pub mod Listing
pub mod Ownership
pub mod Login
pub mod Online
pub mod Directory
pub mod Finishing
pub mod Reading
pub mod Upload
pub mod Accepting
pub mod Delivery
pub mod Streaming
pub mod Whole
pub mod Handles
pub mod Held
pub mod Keeping
pub mod Invariant
pub mod Reachable
pub mod Members
pub mod Granted
pub mod Offered
pub mod Writing
pub mod Senders
pub mod Steps
pub mod Reach
use computer_network_final_p.Base.{
  ℕ, ◌%◌, ◌^◌, Bool, Option, none, some, List, [], ◌∷◌, ◌++◌, length, if◌then◌else◌, Result, ok,
  err, fault, text,
}
use computer_network_final_p.Base.Dict.{Dict, find, adjust, nat_eq}
use computer_network_final_p.Wire.{little}
use computer_network_final_p.Protocol.Message.{MsgType, make_header, header_bytes}
use computer_network_final_p.Transfer.{TransferManager}
use computer_network_final_p.FileStore.{FileStore, DirectoryAnswer, WriteAnswer}
use computer_network_final_p.Db.{Services}
use Sessions.{TcpSession, Objects, Registry, is_authenticated, clear_auth, count, remove_session}

-- All that the handlers share.
pub record World (S : Services) : Type 0 where
  pub objects : Objects
  pub sessions : Registry
  pub transfers : TransferManager
  pub store : FileStore
  pub services : S.State

-- What the file system answers during one message.
pub record FileAnswers : Type 0 where
  pub directory : DirectoryAnswer
  pub opens : Bool
  pub write : WriteAnswer
  pub renames : Bool

module _ {S : Services} where
  -- The fields of the session object that runs; a handler holds it, so it is there.
  unfoldable pub self_of : World S → ℕ → TcpSession
  self_of w self = elim (find self w.objects) [
    | none ↦ record { token = []; user_id = 0; username = []; outq = [] }
    | some s ↦ s
  ]

  -- A frame: the header, with the length as a `uint32_t`, and the payload.
  unfoldable pub send : World S → ℕ → MsgType → List ℕ → World S
  unfolding make_header header_bytes
  send w id type payload =
      let frame =
        header_bytes little (make_header little type (length payload % 2 ^ 32)) ++ payload in
      record w { objects = adjust id (λ s. record s { outq = s.outq ++ (frame ∷ []) }) w.objects }

  -- What every `DISCONNECTED` branch does, but the one for a payload that is too large: the count
  -- for the log, which drops expired entries, then the session's token and its authentication.
  unfoldable pub drop_auth : World S → ℕ → World S
  drop_auth w self =
      if is_authenticated (self_of w self)
      then record w {
        sessions = remove_session ((count w.sessions w.objects).0) (self_of w self).token;
        objects = adjust self clear_auth w.objects;
      }
      else w
