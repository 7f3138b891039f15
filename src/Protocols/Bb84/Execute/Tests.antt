-- ===== src/Protocols/Bb84/Execute/Tests.antt =====
-- A key agreement of one byte.
use qchat.Prelude.{[]}
use qchat.Value.{codes}
use qchat.Protocols.{leader, follower, Session}
use qchat.Protocols.Bb84.Execute.Samples.{lead_numbers, follow_numbers}

abbrev lead : Session
lead = record {
  role = leader;
  name = codes "alice";
  peer = codes "bob";
  ctrl_msg_q = [];
  outbound_q = [];
  randoms = lead_numbers;
}

abbrev follow : Session
follow = record {
  role = follower;
  name = codes "bob";
  peer = codes "alice";
  ctrl_msg_q = [];
  outbound_q = [];
  randoms = follow_numbers;
}
