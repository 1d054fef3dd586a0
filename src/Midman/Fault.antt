-- ===== src/Midman/Fault.antt =====
-- The exceptions of midman/reporter.py, by the class that Python raises, and the outcome of a call.
pub data Fault : Type 0 where
  -- a `raise ValueError` of the source
  value_error : Fault
  -- a local variable read before it is assigned (UnboundLocalError)
  unbound_local : Fault
  -- an attribute of None (AttributeError)
  attribute_error : Fault
  -- an exception of base64 or scapy on a payload that they refuse
  decode_error : Fault

pub data Outcome : Type 0 where
  done : Outcome
  raised : Fault → Outcome
