-- ===== src/Server/Tests.antt =====
-- A server that knows Alice, and nodes that register with it.
use qchat.Prelude.{
  ℕ, ◌<◌, ◌≡◌, ◌≢◌, refl, true, false, List, [], ◌∷◌, All, none, some, Result, ok, err,
  attribute_error, arith, nat_eq, list_eq,
}
use qchat.Value.{Text, str, bytes, dict, Fields, end, field, codes, get}
use qchat.Messages.{putu}
use qchat.Db.{
  UserDb, user_key, pub_key, connection, everyone, get_user, has_user, get_public_key,
  get_public_user_info,
}
use qchat.Core.{return, Node, skip, encode_latin, sig_key, host_key, port_key}
use qchat.Core.Users.{get_registration_data}
use qchat.Core.Signed.{with_data}
use qchat.Core.Process.{process_message}
use qchat.Core.Samples.{alice_name, bob_name, toy_crypto, toy_json, still, node, alice_record}
use qchat.Server.Registry.{register_user_keeps}
use qchat.Server.{EprSource, register_user, handle_registration, server_proc_map}
use qchat.Server.Registration.{registration_answers, unsigned_update, updated_user_unanswerable}

abbrev server : Node
server = node (codes "server") ((alice_name, alice_record) ∷ [])

abbrev carol_name : Text
carol_name = codes "carol"

abbrev carol : Node
carol = node carol_name ((carol_name, field pub_key (bytes (7 ∷ 200 ∷ [])) end) ∷ [])

own_key : get_public_key carol_name carol.user_db ≡ ok (bytes (7 ∷ 200 ∷ []))
unfolding get_public_key qchat.Db.known_info qchat.Db.get_or_null get_user qchat.Prelude.Dict.lookup
    get
own_key = refl

carol_new : has_user carol_name server.user_db ≡ false
unfolding has_user get_user qchat.Prelude.Dict.lookup
carol_new = refl

registration_answers_example :
    (d : Fields) × (server' : Node) × (get_registration_data carol ≡ ok d)
    × (handle_registration (dict d) server ≡ (ok tt, server'))
    × (get_public_user_info carol_name server'.user_db
        ≡ ok (
            field connection
              (dict (field host_key carol.host (field port_key carol.port end)))
              (field pub_key (str (7 ∷ 200 ∷ [])) (field user_key (str carol_name) end))))
registration_answers_example =
    registration_answers carol server (7 ∷ 200 ∷ []) (λ e. cc) own_key
      (omega arith, (omega arith, tt)) carol_new

latin : encode_latin (codes "forged") ≡ ok (codes "forged")
unfolding encode_latin
latin = refl

-- A library whose calls all return.
abbrev no_qubits : EprSource
no_qubits = record { Qubit = Unit; create_epr = λ user. return tt; send_qubit = λ q peer. skip }

unsigned_update_example :
    (s' : Node) × (process_message toy_json toy_crypto still
        (server_proc_map toy_json toy_crypto still no_qubits)
        (with_data putu bob_name (
          field user_key
            (str alice_name)
            (field pub_key (str (codes "mine")) (field sig_key (str (codes "forged")) end))))
        server
      ≡ (ok tt, s'))
    × (get_public_key alice_name s'.user_db ≡ ok (str (codes "mine")))
unsigned_update_example =
    unsigned_update toy_json toy_crypto still no_qubits bob_name alice_name (codes "mine")
      (codes "forged") (codes "forged") server (λ e. cc) latin

updated_user_unanswerable_example :
    (s' : Node) × (process_message toy_json toy_crypto still
        (server_proc_map toy_json toy_crypto still no_qubits)
        (with_data putu bob_name (
          field user_key
            (str alice_name)
            (field pub_key (str (codes "mine")) (field sig_key (str (codes "forged")) end))))
        server
      ≡ (ok tt, s'))
    × (get_public_user_info alice_name s'.user_db ≡ err attribute_error)
updated_user_unanswerable_example =
    updated_user_unanswerable toy_json toy_crypto still no_qubits bob_name alice_name (codes "mine")
      (codes "forged") (codes "forged") server (λ e. cc) latin

alice_known : has_user alice_name server.user_db ≡ true
unfolding has_user get_user qchat.Prelude.Dict.lookup
alice_known = refl

register_user_keeps_example :
    get_user alice_name (register_user carol_name (dict end) (str (codes "key")) server).1.user_db
    ≡ get_user alice_name server.user_db
register_user_keeps_example =
    register_user_keeps carol_name alice_name (dict end) (str (codes "key")) server alice_known
