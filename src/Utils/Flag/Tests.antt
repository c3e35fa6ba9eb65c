-- ===== src/Utils/Flag/Tests.antt =====
-- `WordSepNormalizeFunc` on the name of a flag.
use external_crd.Prelude.{◌≡◌, length}
use external_crd.Prelude.Text.{Lacks, codes}
use external_crd.Utils.Flag.{word_sep_normalize_func, word_sep_normalize_func-Lacks}

kube_api_qps_dashed :
    Lacks b'_' (word_sep_normalize_func (codes "kube_api_qps"))
    × (length (word_sep_normalize_func (codes "kube_api_qps")) ≡ length (codes "kube_api_qps"))
    × (word_sep_normalize_func (word_sep_normalize_func (codes "kube_api_qps"))
        ≡ word_sep_normalize_func (codes "kube_api_qps"))
kube_api_qps_dashed = word_sep_normalize_func-Lacks (codes "kube_api_qps")
