-- ===== src/Tlv/Status.antt =====
-- tlv_status_t, with its values in the order of src/application/tlv.h.
pub data TlvStatus : Type 0 where
  tlv_ok tlv_end err_truncated err_overrun err_too_big err_no_space err_buf : TlvStatus
