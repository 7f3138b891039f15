-- ===== src/Protocols/Factory.antt =====
-- qchat/protocols.py, `ProtocolFactory`: the protocol classes by their names.
use qchat.Prelude.{◌≡◌, ◌↔◌, refl, ap, ◌∙◌, [], ◌∷◌, Option, some, nat_eq, list_eq}
use qchat.Prelude.Dict.{Dict, lookup, lookup-All}
use qchat.Value.{Text, codes}

pub data ProtocolClass : Type 0 where
  bb84_purified diqkd super_dense_coding : ProtocolClass

unfoldable pub protocol_name : ProtocolClass → Text
protocol_name bb84_purified = codes "BB84_PURIFIED"
protocol_name diqkd = codes "DIQKD"
protocol_name super_dense_coding = codes "SUPERDENSE"

unfoldable pub protocol_mapping : Dict Text ProtocolClass
unfolding protocol_name
protocol_mapping =
    (protocol_name bb84_purified, bb84_purified)
    ∷ (protocol_name diqkd, diqkd)
    ∷ (protocol_name super_dense_coding, super_dense_coding)
    ∷ []

unfoldable pub create_protocol : Text → Option ProtocolClass
unfolding protocol_mapping
create_protocol name = lookup name protocol_mapping

lookup-protocol_name : (k : ProtocolClass) → lookup (protocol_name k) protocol_mapping ≡ some k
unfolding protocol_mapping protocol_name lookup
lookup-protocol_name bb84_purified = refl
lookup-protocol_name _ = refl

-- The factory finds a class exactly under that class's own name.
create_protocol-protocol_name :
    (name : Text) (c : ProtocolClass) → (create_protocol name ≡ some c) ↔ (name ≡ protocol_name c)
unfolding create_protocol protocol_mapping protocol_name lookup
create_protocol-protocol_name name c = (
  λ found.
      lookup-All (λ n k. n ≡ protocol_name k) name c protocol_mapping (refl, (refl, (refl, tt)))
        found,
  λ same. ap (λ n. lookup n protocol_mapping) same ∙ lookup-protocol_name c,
)
