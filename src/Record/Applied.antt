-- ===== src/Record/Applied.antt =====
-- src/lib.rs: the result of a delete at an exact key match.
use mpt_flat_poc.Node.{Node}

pub data Applied : Type 0 where
  absent : Node → Applied
  changed : Node → Applied
  removed : Applied
