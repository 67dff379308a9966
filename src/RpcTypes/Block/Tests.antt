-- ===== src/RpcTypes/Block/Tests.antt =====
-- Runs of the block summaries at concrete inputs.
use tronz.Prelude.{◌≡◌, refl, none, some, [], replicate, ok}
use tronz.Prelude.Int.{pos}
use tronz.RpcTypes.Block.{
  BlockInfo, BlockSummary, into_block_info, info_of_raw, block_hash, optional_hash,
  optional_witness,
}
use tronz.RpcTypes.Block.Summary.{into_block_info-IsBlock, IsBlock}

abbrev block : BlockInfo
block = record {
  number = pos 70_000;
  hash = replicate 32 6;
  timestamp = pos 5;
  parent_hash = none;
  tx_trie_root = none;
  witness = none;
  version = some (pos 30);
}

abbrev summary : BlockSummary
summary = record {
  block_header = some (record {
    raw_data = some (record {
      timestamp = pos 5;
      tx_trie_root = [];
      parent_hash = [];
      number = pos 70_000;
      witness_address = [];
      version = pos 30;
    });
  });
  block_id = replicate 32 6;
}

summary_read : into_block_info summary none ≡ ok block
unfolding into_block_info info_of_raw block_hash optional_hash optional_witness
summary_read = refl

into_block_info-IsBlock_example : IsBlock block
into_block_info-IsBlock_example = into_block_info-IsBlock summary none block tt summary_read
