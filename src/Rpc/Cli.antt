-- ===== src/Rpc/Cli.antt =====
-- qchat/rpc.py, `QChatCLIRPCClient`: what the command line client sends, and what it shows.
use qchat.Prelude.{Bool, true, false, List, [], ◌∷◌, ◌++◌, Result, ok, err, ◌>>=◌}
use qchat.Prelude.Dict.{Dict}
use qchat.Value.{Text, Bytes, Value, codes}
use qchat.Messages.{Json}
use qchat.Cryptobox.{Crypto}
use qchat.Core.{Environment}
use qchat.Client.{Protocols}
use qchat.Rpc.{Clients, Outside, rpc_send_message}

pub record CliClient : Type 0 where
  pub user : Text
  pub destination : Text
  pub running : Bool

unfoldable pub new_cli_client : Text → Text → CliClient
new_cli_client user destination = record { user = user; destination = destination; running = false }

unfoldable pub stop : CliClient → CliClient
stop c = record c { running = false }

-- `"{} @ {}".format(input_text, time.time())`
unfoldable pub stamped : Text → Text → Text
stamped input_text time = input_text ++ (codes " @ " ++ time)

module _ (json : Json) (crypto : Crypto) (env : Environment) (outside : Outside)
    (protocols : Protocols) where
  -- The loop of `start`, over what the user types, with the time and the nonce of each message: whether
  -- the message is sent is not asked, an exception ends the loop.
  unfoldable pub send_inputs : CliClient → List (Text × Text × Bytes) → Clients → Result Clients
  unfolding stamped rpc_send_message
  send_inputs c [] clients = ok clients
  send_inputs c ((input_text, time, nonce) ∷ inputs) clients = do
    (sent, clients') ←
        rpc_send_message json crypto env outside protocols c.user c.destination
          (stamped input_text time) nonce clients
    send_inputs c inputs clients'

  unfoldable pub start :
      CliClient → List (Text × Text × Bytes) → Clients → Result (CliClient × Clients)
  unfolding send_inputs
  start c inputs clients = do
    clients' ← send_inputs (record c { running = true }) inputs clients
    ok (record c { running = true }, clients')

-- What a pass of `_read_messages` prints, given how a message is formatted; an exception of the call
-- prints nothing.
unfoldable pub shown_lines : (Value → Text) → Text → List Value → List Text
shown_lines format sender [] = []
shown_lines format sender (message ∷ messages) =
    (codes "[ " ++ (sender ++ (codes " ]: " ++ (format message ++ codes "\n\n"))))
    ∷ shown_lines format sender messages

unfoldable pub shown_senders : (Value → Text) → Dict Text (List Value) → List Text
unfolding shown_lines
shown_senders format [] = []
shown_senders format ((sender, messages) ∷ rest) =
    shown_lines format sender messages ++ shown_senders format rest

unfoldable pub shown_messages :
    (Value → Text) → CliClient → Result (Dict Text (List Value)) → List Text
unfolding shown_senders
shown_messages format c (err e) = []
shown_messages format c (ok []) = []
shown_messages format c (ok (entry ∷ entries)) =
    codes "\n\n"
    ∷ (shown_senders format (entry ∷ entries) ++ (codes "[ " ++ (c.user ++ codes " ]: ")) ∷ [])
