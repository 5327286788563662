-- ===== src/FileIo/Offset.antt =====
-- index_to_offset and offset_to_index of src/lib/fileio.c.
use nickdb.Base.{suc, ◌-◌, ◌*◌, ◌/◌, ◌≡◌, ◌∙◌, ap, arith, ℤ, pos, negsuc, neg, scale}
use nickdb.Word.{FitsI64, wrap64_fits}
use nickdb.Constants.{page_size}
use nickdb.FileIo.{index_to_offset, offset_to_index}

offset_to_index-scale : (v : ℤ) → offset_to_index (scale v page_size) ≡ v
unfolding offset_to_index
offset_to_index-scale (pos n) = ground arith
offset_to_index-scale (negsuc n) =
    let k : suc (suc n * page_size - 1) / page_size ≡ suc n = omega arith in ap neg k

-- offset_to_index undoes index_to_offset on every index, also a negative one, whose offset fits
-- the 64 bits of a byte_offset.
pub offset_to_index-index_to_offset :
    (v : ℤ) → FitsI64 (scale v page_size) → offset_to_index (index_to_offset v) ≡ v
unfolding index_to_offset
offset_to_index-index_to_offset v h =
    ap offset_to_index (wrap64_fits (scale v page_size) h) ∙ offset_to_index-scale v
