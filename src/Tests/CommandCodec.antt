-- ===== src/Tests/CommandCodec.antt =====
-- The theorems on the wire form of commands, batches and results at concrete ones.
use streamstack.Prelude.{pos, negsuc, ◌≡◌, refl, arith, List, [], ◌∷◌}
use streamstack.Metadata.Types
use streamstack.Metadata.Types.{
  MetadataCommand, MetadataResult, StreamMetadata, opened, delete, keep_data,
}
use streamstack.Metadata.Wire
use streamstack.Metadata.Wire.{codec_version, put_u8, err, corrupt, utf8_from}
use streamstack.Metadata.Wire.Laws.{IsText}
use streamstack.Metadata.CommandCodec.{
  put_command_body, encode_command, decode_command, encode_batch, decode_batch,
}
use streamstack.Metadata.CommandCodec.Results.{encode_result, decode_result}
use streamstack.Metadata.CommandCodec.RoundTrip.{
  CommandFits, decode_command-encode_command, decode_batch-encode_batch,
  decode_result-encode_result, trailing_byte_refused,
}

-- A registration under "n1é".
abbrev registration : MetadataCommand
registration = Types.register_node (pos 1) (pos 10) (110 ∷ 49 ∷ 195 ∷ 169 ∷ []) 4

name_IsText : IsText (110 ∷ 49 ∷ 195 ∷ 169 ∷ [])
unfolding utf8_from
name_IsText = record { short = omega arith; utf8 = refl }

registration_fits : CommandFits registration
registration_fits = (omega arith, omega arith, name_IsText, omega arith)

decode_command-encode_command_example :
    decode_command (encode_command registration) ≡ Wire.ok registration
decode_command-encode_command_example = decode_command-encode_command registration registration_fits

trailing_byte_refused_example :
    decode_command (put_u8 codec_version (put_command_body registration (7 ∷ []))) ≡ err corrupt
trailing_byte_refused_example = trailing_byte_refused registration 7 [] registration_fits

abbrev compaction : MetadataCommand
compaction =
    Types.compact_stream_object (pos 1) (pos 10)
      (record {
        object_id = 8;
        object_size = 300;
        stream_id = 0;
        stream_epoch = 2;
        start_offset = 0;
        end_offset = 40;
        source_object_ids = 5 ∷ 6 ∷ [];
        operations = delete ∷ keep_data ∷ [];
        attributes = 0;
      })
      (pos 99)

compaction_fits : CommandFits compaction
compaction_fits = (
  omega arith,
  omega arith,
  record {
    object_id = omega arith;
    object_size = omega arith;
    stream_id = omega arith;
    stream_epoch = omega arith;
    start_offset = omega arith;
    end_offset = omega arith;
    attributes = omega arith;
    source_object_ids = (omega arith, (omega arith, (omega arith, tt)));
    operations = omega arith;
  },
  omega arith,
)

abbrev batch : List MetadataCommand
batch = registration ∷ compaction ∷ []

decode_batch-encode_batch_example : decode_batch (encode_batch batch) ≡ Wire.ok batch
decode_batch-encode_batch_example =
    decode_batch-encode_batch batch (omega arith) (registration_fits, (compaction_fits, tt))

abbrev stream_answer : MetadataResult
stream_answer = Types.stream (record {
  stream_id = 3;
  epoch = 2;
  start_offset = 5;
  end_offset = 90;
  state = opened;
  node_id = negsuc 0;
})

decode_result-encode_result_example :
    decode_result (encode_result stream_answer) ≡ Wire.ok stream_answer
decode_result-encode_result_example =
    decode_result-encode_result stream_answer
      (omega arith, omega arith, omega arith, omega arith, omega arith)
