-- ===== src/Core/Startup/Tests.antt =====
-- Carol's node, which starts and registers at the root server Eve.
use qchat.Prelude.{
  ℕ, ◌+◌, ◌≤◌, ◌<◌, ◌≡◌, ◌≢◌, refl, true, false, List, [], ◌∷◌, ◌++◌, All, length, replicate,
  Option, none, some, Result, ok, err, arith, nat_eq, list_eq,
}
use qchat.Value.{Text, Bytes, Value, int, pos, str, dict, Fields, end, field, codes}
use qchat.Messages.{rgst, encode_message}
use qchat.Db.{user_key, connection, pub_key, has_user, get_user, get_public_user_info}
use qchat.Core.{Node, host_key, port_key}
use qchat.Core.Signed.{with_data}
use qchat.Core.Samples.{toy_crypto, toy_json, still, node}
use qchat.Core.Startup.{new_node, register_with_root_server}
use qchat.Core.Startup.Registered.{new_node_registers}
use qchat.Server.{handle_registration}

abbrev carol_name : Text
carol_name = codes "carol"

abbrev eve_name : Text
eve_name = codes "Eve"

abbrev place : ℕ → Fields → Fields
place port rest = field host_key (str (codes "localhost")) (field port_key (int (pos port)) rest)

-- The file of every path: Carol at port 8003, whose root server is Eve, at port 8000.
abbrev read : Text → Result Value
read path = ok (
    dict (
      field carol_name (dict (place 8003 (field (codes "root") (str eve_name) end)))
        (field eve_name (dict (place 8000 (field (codes "root") (str eve_name) end))) end)))

abbrev carol : Node
carol =
    record (node carol_name (
      (
        carol_name,
        field pub_key (qchat.Value.bytes (codes "key"))
            (field connection (dict (place 8003 end)) end),
      )
      ∷ [])) {
        port = int (pos 8003);
        root_config = dict (place 8000 (field (codes "root") (str eve_name) end));
      }

made : new_node toy_crypto read none carol_name false (codes "key") ≡ ok carol
unfolding new_node qchat.Value.put qchat.Value.update
made = refl

unknown : has_user carol_name (node eve_name []).user_db ≡ false
unfolding has_user get_user qchat.Prelude.Dict.lookup
unknown = refl

abbrev registration_wire : Bytes
registration_wire =
    codes "RGST" ++ (replicate 11 0 ++ codes "carol" ++ (0 ∷ 0 ∷ 0 ∷ 2 ∷ codes "{}"))

coded : (d : Fields) → encode_message toy_json (with_data rgst carol_name d) ≡ ok registration_wire
unfolding encode_message qchat.Value.Utf8.utf8_encode qchat.Value.Words.to_bytes
coded d = refl

new_node_registers_example :
    (d : Fields) × (server' : Node) × (register_with_root_server toy_json toy_crypto still carol ≡ (
      ok tt,
      record carol { wire = (str (codes "localhost"), int (pos 8000), registration_wire) ∷ [] },
    ))
    × (encode_message toy_json (with_data rgst carol_name d) ≡ ok registration_wire)
    × (handle_registration (dict d) (node eve_name []) ≡ (ok tt, server'))
    × (get_public_user_info carol_name server'.user_db
        ≡ ok (
            field connection
              (dict (place 8003 end))
              (field pub_key (str (codes "key")) (field user_key (str carol_name) end))))
unfolding qchat.Cryptobox.get_pub qchat.Core.item qchat.Value.get qchat.Core.Startup.same_place
new_node_registers_example =
    new_node_registers toy_json toy_crypto still read none carol_name false (codes "key")
      registration_wire carol (node eve_name []) (str (codes "localhost")) (int (pos 8000)) made
      (λ e. cc) (omega arith) (omega arith, (omega arith, (omega arith, tt))) unknown refl refl refl
      refl (λ d h. coded d)
