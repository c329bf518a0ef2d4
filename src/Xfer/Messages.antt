-- ===== src/Xfer/Messages.antt =====
-- What the two ends of a transfer say to each other (gtcd/xfer/xferPlugin_gtc_prot.x): the requests,
-- the replies, and the error messages, one constructor for each text.
use ditto.Prelude.{ℕ, Bool, List}
use ditto.Prelude.Bytes.{Bytes}

pub data ErrMsg : Type 0 where
  sp_failed : Bytes → ErrMsg
  invalid_offset : ErrMsg
  too_large_offset : ErrMsg
  invalid_oid : ErrMsg
  could_not_connect : ErrMsg
  rpc_failure : ErrMsg
  returned_error : ErrMsg → ErrMsg
  returned_invalid_data : ErrMsg

pub record GetChunkArg : Type 0 where
  pub desc : Bytes
  pub offset : ℕ
  pub hints : List Bytes

pub record GetChunkResOk : Type 0 where
  pub offset : ℕ
  pub chunk_id : Bytes
  pub chunk_data : Bytes
  pub end : Bool

pub data GetChunkRes : Type 0 where
  errmsg : ErrMsg → GetChunkRes
  resok : GetChunkResOk → GetChunkRes

pub record GetBitmapResOk : Type 0 where
  pub offset : ℕ
  pub count : ℕ
  pub num_descs : ℕ
  pub bmp : List ℕ
  pub end : Bool

pub data GetBitmapRes : Type 0 where
  errmsg : ErrMsg → GetBitmapRes
  resok : GetBitmapResOk → GetBitmapRes

pub record GetDescriptorsResOk : Type 0 where
  pub offset : ℕ
  pub count : ℕ
  pub descriptors : List Bytes
  pub end : Bool

pub data GetDescriptorsRes : Type 0 where
  errmsg : ErrMsg → GetDescriptorsRes
  resok : GetDescriptorsResOk → GetDescriptorsRes
